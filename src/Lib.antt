-- ===== src/Lib.antt =====
-- MotoROS2: the core of a program that runs on a Yaskawa Motoman controller and moves its robots for
-- ROS 2. The model covers the part that decides whether and how the robot moves.
--
-- Parts and files. Names of the source are given where they differ from those of the model.
--   Prelude       names of the libraries, lists over the native numbers, integers.
--   MotoPlus      the M+ API (mp.. functions), which is not in the repository, as a record of
--                 functions on a state of the controller; KeepsOutputs is what a read of written
--                 outputs gives. Every theorem holds for any such API.
--   Fpu           double arithmetic, a parameter. A double is its bit pattern.
--   Platform      API, arithmetic and constants together. State is the program's data and the state
--                 of the controller. Environment says what other tasks, the job and the robot do
--                 while a task sleeps.
--   Data          the structures of src/CtrlGroup.h, src/ControllerStatusIO.h and
--                 src/MotionControl.h. `numGroup` is the length of the list of groups.
--   Io            src/ServiceReadWriteIO.c: Ranges (the macros), Access (the checks), Service (the
--                 triggers); Addresses and Handlers have the theorems.
--   Queue         the increment queue of a group: Q_OFFSET_IDX of src/CtrlGroup.h and the critical
--                 sections of src/MotionControl.c that put entries in, take them out and clear the
--                 queue. Contents reads a ring as a list, Increment has the specification of one
--                 interpolation cycle, Pulses the sums of pulses over a history of both tasks.
--   CtrlGroup     src/CtrlGroup.c: kinds of groups, positions, units, order of the joints; Names and
--                 Feedback have the names, speeds and torques; Order has the round trip of the two
--                 conversions of the order.
--   Trajectory    src/TimeConversionUtils.h, and of src/MotionControl.c the conversion of the points
--                 of a trajectory; Init has Ros_MotionControl_Init with its two callers there; Queued
--                 has the later points of a point queue and the trigger of
--                 src/ServiceQueueTrajPoint.c; Converted, Started and Refused have the theorems.
--   Controller    src/ControllerStatusIO.c: the signals and what is computed from them; Update has the
--                 cyclic update Ros_Controller_IoStatusUpdate and Ros_MotionControl_ClearQ_All;
--                 Readiness, Signals and Cleared have the theorems.
--   Motion        src/MotionControl.c: Mode starts a motion mode, Stop stops motion; Started and
--                 Stopped have the theorems.
--   IncMove       src/MotionControl.c, Ros_MotionControl_IncMoveLoopStart: the arithmetic of the
--                 speed limit for one group, and in Cycle one pass of the endless loop; Limit,
--                 Accounts and Pass have the theorems.
--   Interpolate   src/MotionControl.c, Ros_MotionControl_AddToIncQueueProcess: the arithmetic of one
--                 increment; Points works on the points of a group, Task has the loops. Ticks, Plan,
--                 Others, Turn, UnderWay, Settled, Tooled and Followed lead to the theorem on a segment.
--   ActionServer  src/ActionServer_FJT.c: the state of the server; Tolerance, Judged (Goal_Complete)
--                 and Handlers have its functions, Protocol the calls of the handlers as steps;
--                 Lookup, Orderly, Replies and Received have the theorems.
--   Services      the triggers of src/ServiceStartTrajMode.c, src/ServiceStartPointQueueMode.c,
--                 src/ServiceStopTrajMode.c, src/ServiceResetError.c, src/ServiceSelectMotionTool.c;
--                 Answers has the theorems.
--   Inform        the INFORM job that the robot waits in: its text and the lines of a file
--                 (src/FileUtilityFunctions.c); Header and Job are the check, generation and
--                 validation of src/InformCheckerAndGenerator.c; Read, Listed and Ends have the
--                 theorems.
--   Config        the settings, their defaults and validation, src/ConfigFile.c and
--                 src/ConfigFile.h; Items and Yaml are the keys and the handler of YAML events, Load
--                 the copy from USB and the wait for the file; Valid, NameTable, JointNames and Loaded
--                 have the theorems.
--   Communication src/CommunicationExecutor.c: the watch over the connection to the agent, and what is
--                 done about motion when it is lost; Disconnect has the theorem.
--   Position      src/PositionMonitor.c: the names of the joints in the messages; Location has
--                 Ros_PositionMonitor_UpdateLocation, Frames the transforms of a robot, with
--                 src/Quaternion_Conversion.c and src/RosMotoPlusConversionUtils.c in Quaternion;
--                 Naming, Published and Chain have the theorems.
--   Startup       Ros_CtrlGroup_Create of src/CtrlGroup.c on the parameters of the controller;
--                 Initialize has Ros_Controller_Initialize of src/ControllerStatusIO.c, Cycle the loop of
--                 src/main.c; Fresh, Created, Ready and Waited have the theorems.
--   Calibration   the file of calibrations, src/Ros_mpGetRobotCalibrationData.c; Flags, Lines and
--                 Ends have the theorems.
--   RemapArgs     the command line made up from remap rules, src/FauxCommandLineArgs.c; Written has
--                 the theorems.
--   Sample        a concrete controller and robot on which the theorems are applied (Tests files).
--
-- The action server starts trajectories and stops motion; the interpolation, a task for each
-- group, fills the queues. The services call the motion modes, these the cyclic update and the
-- queues; the motion loop reads the queues that the trajectory tasks fill, and all of them share
-- State.
--
-- Bounds. Loops over arrays are recursion on the lists. The wait loops of the source count up to a
-- limit: 5000 ms in steps of 50 ms are 100 passes, StopMotion waits 20 passes, and the model
-- recurs on these numbers, so no fuel can run out. The interpolation recurs on the turns of its
-- loop, for which one more than the milliseconds of the segment is enough, and its wait for room
-- in the queue, which the source does not bound, on a number of periods. The wait for
-- the controller at the start recurs on a number of turns, which the source does not bound. The
-- wait for the end of motion recurs on a number of seconds, for which those until the robot is still are enough. The
-- check of a job and the reading of the calibrations turn as often as the file has characters,
-- and once more. A LONG is an unbounded
-- integer: pulses stay far below 2 ^ 31. The UINT32 addresses of the I/O service wrap as in the
-- source, and so do the UCHAR of the axis configuration and the product of seconds by 1000 in a
-- duration.
--
-- Not modelled: a file that the YAML parser does not accept, the names of joints of more than 31
-- characters, which run into the entries behind them, the memory behind the parts of a line that has
-- fewer of them than are read, the set-up of the connection to the agent, publishing, logging and memory.
pub mod Prelude
pub mod MotoPlus
pub mod Data
pub mod Fpu
pub mod Queue
pub mod CtrlGroup
pub mod Communication
pub mod Position
pub mod Config
pub mod Platform
pub mod Controller
pub mod Motion
pub mod Services
pub mod Trajectory
pub mod ActionServer
pub mod IncMove
pub mod Inform
pub mod RemapArgs
pub mod Startup
pub mod Calibration
pub mod Sample
pub mod Interpolate
pub mod Io
