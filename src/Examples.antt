-- ===== src/Examples.antt =====
-- Concrete runs on which the hypotheses of the theorems hold.
pub mod Data
pub mod Motors
pub mod ControlSteadyEquivalence
pub mod SharedQueueInterleaved
pub mod ControlTickSafety
pub mod ControlTickRelease
pub mod MainTickSafety
pub mod MainShutdown
pub mod ControlTickQuiet
pub mod ControlTimerChangeover
pub mod ControlComparatorGate
pub mod SharedQueueFifo
pub mod TransferPaths
pub mod DshotFrameEdges
pub mod DshotFrameCrc
pub mod MotorModeArming
pub mod InputPipeline
pub mod MainServiceCutoff
pub mod SharedActionPriority
pub mod MeasureCurrentWindow
pub mod MeasureCurrentCharge
pub mod BridgeSectors
pub mod TelemetryEdtFrames
pub mod MotorCommutationIntervals
pub mod MotorBemfFilter
pub mod DshotGcrWord
pub mod DshotCommandsProgramming
pub mod ServoSlew
pub mod ServoCalibration
pub mod TransferDetection
pub mod ArithMapOrder
pub mod MotorDutyRamp
pub mod MotorPidExact
pub mod ArithCrcDetection
pub mod SignalWidths
pub mod ConfigDerivedLimits
