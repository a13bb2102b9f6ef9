-- ===== src/Lib.antt =====
-- GPU telemetry driver: a model of the kernel module and of the programs that use it.
--
-- The program. A kernel thread, the collector, reads sensor files of sysfs at an interval, packs
-- what it finds into a `struct gpu_sample` of 48 bytes, pushes it into a ring buffer, and wakes
-- the threads that wait for data. A file opened on /dev/gpu_telem has a position of its own in
-- the stream of samples, from which `read` delivers whole samples; `poll` tells whether there is
-- data, and three ioctls read the ring's size and read or set the interval. A reader that falls
-- more than the ring's size behind is moved forward to the oldest sample there is. Two user
-- programs, in C and in Python, print what they read, a third sets a sample beside what NVML, the
-- vendor's library, reports.
--
-- Which file models which part.
--   Uapi.antt         include/gpu_telem_uapi.h: the record `GpuSample` is `struct gpu_sample`; its
--                     bytes are in Uapi/Layout.
--   Log.antt          what the ring buffer promises, with no ring: the list of every sample pushed,
--                     of which a reader can have the last `size`.
--   Ring.antt         kernel/ringbuf.h and kernel/ringbuf.c: `ring_init`, `ring_destroy`,
--                     `ring_push`, `ring_data_available`, `ring_consume`, `ring_dropped`. A fault
--                     (a NULL `samples`, an index out of range) is `none`. Ring/Invariant says when
--                     a ring represents a log.
--   Device.antt       kernel/gpu_telem.h and the file operations of kernel/gpu_telem_core.c:
--                     `gpu_telem_open`, `gpu_telem_release`, `gpu_telem_read`, `gpu_telem_poll`,
--                     `gpu_telem_ioctl`.
--   Sysfs.antt        `sysfs_read_s64` and `probe_hwmon_paths` of kernel/gpu_telem_core.c.
--   Collector.antt    `collect_sample` and `collector_thread` of kernel/gpu_telem_core.c.
--   Lifecycle.antt    `next_pow2`, `gpu_telem_init` and `gpu_telem_exit` of
--                     kernel/gpu_telem_core.c, the error labels included. What is acquired and
--                     released is a trace; Lifecycle/Balance replays it as a stack.
--   System.antt       the collector beside any number of open files, as a step relation: a step is
--                     a call of the ring buffer or of the wait queue, a read whose copy to the
--                     user fails being a step of its own. System/Invariant has its invariant,
--                     System/KeepsUp is about readers that are fast enough.
--   Driver.antt       the handlers of `gpu_telem_fops`, called for any number of files in any order
--                     beside the collector, as a step relation on the device. Driver/Shows relates
--                     it to the system of System.antt, Driver/Refines has the simulation,
--                     Driver/Streams what follows for the callers, Driver/Load joins it to the
--                     load, Driver/Counts is about the number of open files, Driver/KeepsUp about
--                     files that are read in time.
--   Unload.antt       `gpu_telem_exit` call by call, beside `collector_thread` and the holders of open
--                     files, as a step relation; Unload/Invariant has its invariant, Unload/Life
--                     joins it to the load.
--   TelemReader.antt  user/gpu_telem_reader.c: the loop of `main`, the throttle column.
--                     TelemReader/Main has the options, the two ioctls, `print_sample`, and `main`,
--                     TelemReader/Main/Output its standard output, which TelemReader/Main/Tells
--                     reads back, TelemReader/Session the runs of the loop on the driver, which
--                     TelemReader/Main/Stream and TelemReader/Main/Shows follow to the output.
--   Consumer.antt     user/consumer.py: `GpuSample.unpack`, the generator `samples` and the loop over
--                     it. Consumer/Main has the rest of the class and `main`, Consumer/Prints joins
--                     it to the driver.
--   Nvml.antt         user/nvml_validate.cpp: `NvmlGuard` and `read_kernel_sample`. Nvml/Table has
--                     `opt_str` and the rows of the table, Nvml/Main has `main`, Nvml/Output its
--                     standard output, all with and without HAVE_NVML; Nvml/Told reads the tables
--                     back, Nvml/Defined says when the output is defined.
--   Printing.antt     what the programs under user/ use of floating-point numbers and of `printf`:
--                     an interface, and which conversion takes which type. Printing/Columns has
--                     lines of padded columns, Printing/Lines texts of lines, both with their
--                     reading, Printing/Documented what is documented of `printf`'s numbers.
--   Base.antt         the names, lists, numbers and error chains that the parts share.
--   Examples.antt     small concrete rings, samples and kernels for the tests; each part has its
--                     own Tests module.
--
-- Machine integers are natural numbers, reduced modulo 2^32 or 2^64 where the C code can wrap; a
-- signed value is an integer, with its C casts written out. Kernel and C library functions
-- (`vzalloc`, `kernel_read`, `kstrtos64`, `copy_to_user`, `wait_event_interruptible`, `poll`,
-- `getopt` and so on) and the NVML library are arguments; what is asked of them is a named
-- hypothesis, such as that `vzalloc` gives zeroed memory of the size asked for.
--
-- Bounds and fuel. Theorems about the ring's log ask that fewer than 2^64 samples have been
-- pushed, since `head_seq` is a u64. `next_pow2` has fuel for 32 tests of its loop, which is
-- enough for all sizes up to 2^31; `gpu_telem_init` calls it with 4096 at most. The loops of the
-- collector and of the two readers run over the list of the answers that they get. For the reader
-- in C this list is a whole run: where it ends, the test of the loop finds `g_running` cleared. Runs
-- that never end are not described.
--
-- Locks and memory order. Each function of ringbuf.c runs under the ring's spinlock or makes a
-- single read, so it is one atomic step. A wait tests its condition and goes to sleep in one
-- step, which is what `wait_event_interruptible` promises its callers, and what `poll` comes to
-- by `poll_wait` before the test. A file is read by one thread at a time, as kernel/gpu_telem.h
-- asks. The use of memory after `ring_destroy` is a fault of the model.
--
-- Output. The texts that a program writes are lists of bytes, its sources being in UTF-8. A column
-- `%-<width>s` is padded to a number of bytes, as C says. An output that has undefined behaviour is
-- `none` as a whole.
--
-- Unloading. The kernel keeps a module loaded while a file of it is open, and opens no file of a
-- module that is being unloaded: both are premises of the steps of Unload.antt. `kthread_stop`
-- sets the flag that `kthread_should_stop` reads, and returns once the thread has;
-- `msleep_interruptible` comes back early only on a signal, which it does not send.
--
-- Not modelled: log messages of the module and what the programs write to their standard error; the
-- lines of fixed text of user/consumer.py, with the padding of its columns; the signal handler of
-- user/gpu_telem_reader.c, of which a turn of the loop has the flag that it clears, and in
-- user/consumer.py a KeyboardInterrupt anywhere but in `poll` or `readv`; user/plot_telem.py, which
-- leaves its work to pandas and matplotlib; the scripts and the build files, which hold no state of
-- the program.
pub mod Base
pub mod Uapi
pub mod Ring
pub mod Log
pub mod Device
pub mod Sysfs
pub mod Collector
pub mod Lifecycle
pub mod System
pub mod Driver
pub mod Consumer
pub mod Unload
pub mod Printing
pub mod TelemReader
pub mod Nvml
pub mod Examples
