-- ===== src/Lib.antt =====
-- The models and theorems for nvmetool-win, a console program for Windows that sends NVMe commands to
-- a drive: a menu reads a letter, a handler asks further questions, fills a request, hands it to the
-- driver by DeviceIoControl, tests the reply, and stores or prints what it holds.
--
-- The parts, and the files that model them:
--   Platform     what the program calls and does not implement: the requests with the fields that the
--                code sets, the replies, and a record of Windows, the C library and the driver, whose
--                fields are parameters (malloc, LocalAlloc, ULongAdd, fgets, sscanf_s, DeviceIoControl,
--                RtlGetVersion, the bits that a variable holds before it is written, and the sizes and
--                bit layouts of nvme.h, winioctl.h and ntddstor.h; the codes of the commands are the
--                numbers of the NVMe and SCSI standards)
--   Program      the globals, the history of calls, and the monad of the handlers; Program/Keeps is a
--                calculus for statements on every request that a handler sends, on the console and on the
--                stored data of a namespace, Program/Rules its rules for what the handlers share, and
--                Program/Requests sorts the requests by what they do to the drive
--   Console      src/NVMeUtils.c and src/NVMeUtils.h: the input functions, the codes, the main menu, and
--                what is printed of a text and of a buffer (Printing), and the conversion of a text
--                (Conversion)
--   WinFunc      src/WinFunc.c: iIssueDeviceIoControl, the version of Windows (hIssueCreateFile is in
--                Tool/Main)
--   Controller   src/NVMeIdentifyController.c and .h: Identify Controller (Identify), the fields that
--                the program decides by (Fields), the version tests (Version) and the workaround for
--                one drive (Workaround); the structure as it is declared (Attributes and
--                Structure, by the rules of Layout); the report of the controller data, src/NVMeIdentifyControllerData.c
--                (Report): the values of its members and their order (Order)
--   Smart        src/NVMeSMART.c: iNVMeGetSMART and g_stSMARTLog, the values of the report (Report), and the
--                structure of src/NVMeSMART.h (Structure)
--   Format       src/NVMeFormatNVM.c
--   Deallocate   src/NVMeDeallocate.c
--   SelfTest     src/NVMeDeviceSelftest.c and the log page of src/NVMeDeviceSelftestLog.c with
--                the values of its report (Report)
--   Features     src/NVMeGetFeatures.c (Reads, Fields, Reports, Sensors), src/NVMeFeaturesHCTM.c
--                (Thermal), src/NVMeFeaturesVWC.c (WriteCache), src/NVMeFeaturesTimestamp.c (Timestamp),
--                src/NVMeSetFeatures.c (Setting), src/NVMeFeaturesAPST.c, src/NVMeFeaturesHMB.c and
--                src/NVMeFeaturesLBARange.c (Structures)
--   LogPages     src/NVMeErrorInformation.c, src/NVMeFwSlotInformation.c,
--                src/NVMeCommandSupportedAndEffects.c, src/NVMeGetSupportedLogPages.c and
--                src/NVMeEnduranceGroup.c; the values of their reports (Errors, Slots, Effects,
--                Supported, Endurance), and the names of the commands (Effects/Names)
--   Scsi         src/NVMeSCSIPassThrough.c: the query of the descriptors (Properties), read, write and
--                flush (Transfer), Security Receive (Security), and what is printed (Adapter)
--   Namespace    src/NVMeIdentifyNamespace.c, src/NVMeIdentifyIOCSNamespace.c,
--                src/NVMeIdentifyNSIDDescriptor.c and src/NVMeIdentifyActiveNSIDList.c; the values of the
--                report of a namespace (Report) and of the I/O command set (Protection), and the
--                structure of a namespace (Structure)
--   Telemetry    src/NVMeGetTelemetry.c, and the values of its reports (Report)
--   Vendor       src/NVMeAdminVendorSpecificCommand.c
--   Menus        src/NVMeGetLogPage.c (LogPage), src/NVMeIdentify.c (Identify) and the menu of
--                src/NVMeGetFeatures.c (Feature)
--   Startup      src/NVMeTool.c: the steps of main before its loop
--   Tool         src/NVMeTool.c: the loop over the commands, main behind the opening of the drive,
--                and as a whole (Main), the rule for invariants of a run (Invariants); the name that the usage
--                prints (Usage)
--   Base         Boolean tests, lists and integers over the native numbers
--   Loops        a loop that collects the numbers which it keeps, and what its list has
--   Examples     a concrete platform, and the theorems applied to it
--
-- How the state and the operations correspond: a function `int f(HANDLE)` is a `Prog ℤ`, a function of
-- the platform and the world before it, into its result and the world after. The world holds the
-- globals of the program (g_stController, g_stSMARTLog and g_stNamespaceData byte by byte, the stored
-- security protocols, the two flags, the version of Windows) and what the program has done so far: lines read,
-- allocations, and the requests sent, the latest first. The driver's reply may depend on all requests
-- before it. A handler's `goto error_exit` and early returns are its branches; -1 is `failed` and 0 is
-- `succeeded`. Reading a buffer past its end is recorded in the field `overread`. A pointer to a local
-- result becomes a second component of the result. `free` and `LocalFree` have no effect on the model, but for
-- the two blocks of a converted text (Console/Conversion).
--
-- The loops of the handlers run a bounded number of rounds and are structural recursion on it. The loop
-- of main, which waits for the wish to quit, takes the number of rounds as its fuel and yields none where
-- it runs out; each round reads a line at least, so that one round more than the lines before the wish
-- to quit is enough (Tool/Ends). Bytes are taken modulo 256, words and double words are little endian,
-- and a field of 16 bits truncates modulo 65536.
--
-- Where a report prints a structure that a header of Windows declares (the self-test log, the power
-- states, the status of a command, the telemetry pages), its fields are arguments of the model. The tests
-- of characters of the C library and the conversions of a text by Windows are arguments too.
--
-- Not modelled: text on the console (prompts and reports), where it is not made of a value that a
-- definition computes; the handle and its closing.
pub mod Base
pub mod Platform
pub mod Program
pub mod Console
pub mod WinFunc
pub mod Controller
pub mod Smart
pub mod Format
pub mod Deallocate
pub mod SelfTest
pub mod Features
pub mod Scsi
pub mod LogPages
pub mod Loops
pub mod Menus
pub mod Namespace
pub mod Startup
pub mod Telemetry
pub mod Tool
pub mod Vendor
pub mod Examples
