-- ===== src/Lib.antt =====
-- Verification of the three programs of this repository, which share no code: the dummy scheduling
-- class of task2_scheduler with the kernel's scheduler core that calls it, the FAT32 file system of
-- task3_vfat, and the shell of task1_shell.
--
-- Sched models task2_scheduler/linux-3.8.3/kernel/sched/dummy.c. A run queue (Rq) holds the fields
-- of struct rq and struct dummy_rq, the store of the task structures, named by numbers, and the two
-- tunables. Each function of dummy_sched_class is a function of the same name from the run queue to
-- the new one. The kernel's intrusive lists (linux/list.h) are not part of the repository:
-- Sched.ListHead is an interface with the laws that they are documented to have, and every
-- definition takes it as an instance. A read or write outside of the array of queues is the result
-- none. Counters wrap around as unsigned int does. Sched.Dummy.Steps has the histories of calls.
-- Locking, the calls between processors and printk are left out.
--
-- The other modules of Sched model task2_scheduler/linux-3.8.3/kernel/sched/core.c with the macros
-- and inline functions of sched.h beside it and of include/linux/sched.h. Prio has priorities,
-- policies and weights, Machine the whole run queue (Cpu), struct sched_class as a record of
-- functions (ClassOps) and dummy.c's instance of it, Core the functions that call a class; Nice has
-- set_user_nice and nice, SetScheduler the changes of policy and priority up to the system calls,
-- Wakeup try_to_wake_up and sched_fork, Waiting the waking of wait queues and completions, Schedule
-- __schedule, Syscalls the system calls that read.
-- The classes but the dummy one are those of rt.c, fair.c and others, and rt_mutex_getprio,
-- rt_mutex_adjust_pi, signals and work queues are in other files: they are fields of the interface
-- Kernel, and the security hooks, limits and credentials are fields of Security. Where a theorem
-- relies on the other classes, its hypothesis ClassesPreserve is that they leave priorities,
-- parameters, on_rq and the running task alone, as the dummy class is shown to do; rt_mutex_adjust_pi
-- acts on tasks by calls of rt_mutex_setprio (Boosts). There is one
-- processor (no CONFIG_SMP), so that the locks, migration and the balancing of load do nothing; the
-- clock and the statistics are left out, and so are the switch of stack and address space. The loop
-- of __schedule takes a number of rounds; the theorem on it says when two are enough. A result none
-- is a fault or BUG(). Not modelled of core.c: affinity, domains, cgroups, hotplug, sleeping
-- on a queue, the bandwidth of real time, initialisation; nor fair.c, which is the kernel's.
--
-- Sched.Sound joins core.c and dummy.c: a processor is sound (IsSound) between two calls if each
-- runnable task of the dummy class is on one of its queues, once, and no other task is on any. Its
-- modules follow a task that leaves its queue and comes back, through each call of core.c, and
-- Histories runs calls in any order. The hypothesis KernelKeeps is what core.c relies on in the rest
-- of the kernel: the functions of the other classes return and leave struct dummy_rq alone, a class
-- chooses a runnable task of its own and the idle class the idle task, priorities are inherited
-- upwards only and by rt_mutex_setprio, and a work queue wakes up another worker than the one that
-- goes to sleep. A child is handed over by kernel/fork.c with a copy of its parent's parameters.
--
-- Vfat models task3_vfat/vfat.c. The device is a list of bytes, pread copies what the device has.
-- Layout has the packed structures (little-endian), Init the geometry of the volume, Names the
-- string functions, Chain the walk through the FAT, Read the read of a file, Directory the root
-- directory and what FUSE is shown. Words of 32 bits wrap around, and an offset that passes through
-- an int may turn negative, at which pread fails. What malloc returns and what freed memory reads
-- as are parameters. Loops that the data must stop take fuel: a round for each record of the
-- directory or each cluster of a chain, and one more, is enough, which the theorems state. malloc
-- of list nodes does not fail. Resolve has vfat_read_directory and vfat_resolve_dir, which nothing
-- calls, Listing what vfat_test_read_all prints, as values, and Mount vfat_opt_args and main up to
-- fuse_main. Not modelled: the other messages, and the owner that readdir gives to FUSE.
--
-- Shell models parts of task1_shell/shell.c: Words has parseword, which process_command calls for
-- each word of a line, Background has process, which cuts a line at & into the jobs that it forks,
-- Builtins has run_builtin with its table, Descriptors has what process_command does to the
-- descriptors at > and <, and restore_std, and Execute has run_command, Commands process_command:
-- its loop goes over what is left of the line, with args and narg, and is given an iteration for
-- each byte and one more: an iteration passes over a byte at least. A text is the list of its bytes
-- before the NUL. What belongs to the system is a field of the interface System: chdir, fork,
-- execvp together with the wait for the child, and open; dup, dup2 and close act on a table, at the
-- lowest free descriptor. run_pipe, that is run_command2 with a pipe, is a parameter of
-- process_command. Not modelled: main, and the signal handler.
pub mod Prelude
pub mod Sched
pub mod Vfat
pub mod Shell
