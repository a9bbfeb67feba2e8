-- ===== src/Lib.antt =====
-- Verification of the operating system exercises: a file system on FUSE, two pairs of system calls
-- for Linux (semaphores and messages), the programs that use them, and a graphics library.
--
-- FileSystem models "File Systems Implementation/csc452fuse.c". The disk file `.disk` is its list of
-- bytes. Layout holds the packed structures and their images (csc452_root_directory,
-- csc452_directory_entry, csc452_disk_block); Path is the sscanf of the handlers; Disk has get_root,
-- get_dir, file_exist, dir_exists and next_free_block; Calls has getattr, readdir, mkdir, mknod and
-- the handlers that do nothing; Io has read and write. Tree is the invariant of the whole disk.
-- Semaphore models csc452_down and csc452_up of "Semaphore and Synchronization/sys.c", and
-- MessageQueue csc452_send_msg and csc452_get_msg of "Syscall Implementation/sys.c", each over a
-- kernel heap from pointers to nodes; MessageQueue/Osmsg is "Syscall Implementation/osmsg.c", which
-- calls the latter two. Credentials models the calls of the former sys.c on user and group ids:
-- User has setreuid, setuid, setresuid, getresuid and setfsuid, Group those on groups, and Calls
-- sequences of them. Priority has its setpriority and getpriority, over a table of threads.
-- Traffic is main of "Semaphore and Synchronization/trafficsim.c": each process stands before one of
-- its statements, and `run` lets them move in any order. It takes the two system calls by the interface
-- Semaphores, and Traffic/Kernel fills it with those of Semaphore. CarQueue is the circular queue of
-- "Semaphore and Synchronization/prodcons.c", and Construction its main, over the same interface.
-- Graphics models "Graphic Library": Screen has draw_pixel, clear_screen and blit of library.c and RGB
-- of graphics.h, Line is draw_line, and Hilbert is the turtle of hilbert.c, which calls draw_line.
-- Programs are the mains of hilbert.c and driver.c, as functions of the keys that getkey reads.
-- Prelude has what all parts share (Booleans, lists, C integers), and Bytes the integers, strings and
-- regions of bytes.
--
-- Numbers: an int, a long and a size_t on the disk are their bit patterns, with the wrap-around of
-- the source; a semaphore's value is an integer that wraps at the ends of an int.
-- Fuel: the walks along the linked lists of the kernels take fuel, and the theorems ask for more than
-- the list has nodes, which is enough; without it the walk gives none, as a fault does.
-- draw_line's loop takes fuel for its rounds in the same way. The ints of Graphics do not overflow:
-- they are integers.
-- Parameters: what kmalloc returns is an argument of the calls that use it, and so are the
-- resolution of the framebuffer, and what csc452_mknod's stack holds where it puts `entry` and
-- below `root`, which it uses when the directory does not exist. Credentials and Priority take the
-- rest of the kernel (the maps of user namespaces, the capability test, the security hooks, memory,
-- the limit of processes) as a record, and nothing is asked of it but what a theorem names. Every
-- number of Traffic and Construction that counts cars is unbounded, and the memory behind
-- prodcons.c's `*total_car` is mapped and zero.
-- Memory: strcmp in csc452_get_msg reads on from an array `to` without NUL into `msg`, as the source
-- does; behind the node it gives none. osmsg gives none where strcpy of USER would leave its buffer and
-- where printf would read behind one. The handlers of the file system store names by sscanf before they
-- test the lengths: a name that is refused as too long has then overflowed its buffer in the source.
-- Not modelled: FUSE itself, the scheduler behind schedule(), the other calls of the kernel's two
-- sys.c and its headers, what sscanf writes past the handlers' buffers, times and pauses, the
-- system calls that open the framebuffer and the terminal and read keys, hello_fuse.c, which is FUSE's
-- own sample, and the Java simulator.
pub mod Prelude
pub mod Bytes
pub mod FileSystem
pub mod Semaphore
pub mod MessageQueue
pub mod CarQueue
pub mod Graphics
pub mod Credentials
pub mod Traffic
pub mod Construction
pub mod Priority
