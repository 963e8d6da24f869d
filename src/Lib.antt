-- ===== src/Lib.antt =====
-- Verification library of the Linux device drivers of this repository: the pseudo character device
-- drivers, the GPIO driver, the driver and the program of the character LCD under custom_drivers/, and
-- the character device and /proc drivers of device_driver/.
--
-- The program. custom_drivers/ is a series of kernel modules. 002pseudo_char_driver is one device with
-- 512 bytes of memory (pcd.c) and the same device with its reads and writes under a mutex
-- (pcd_lock.c). 003_pseudo_char_driver_multiple/pcd_n.c is four devices of different sizes and
-- permissions. 004_pcd_platform_driver makes them platform devices that come and go, numbered by their
-- id; 005_pcd_platform_driver_dt describes them by device tree nodes or platform data and numbers them
-- in the order in which they come; 006_pcd_sysfs adds the sysfs attributes max_size and serial_num.
-- 007_gpio_sysfs shows GPIOs through sysfs. 007_gpio_sysfs_lcd is the same driver with a program that
-- drives an HD44780 display through its attribute files; 008lcd_platform_driver drives the display from
-- the kernel, over seven GPIO lines, and takes its commands and texts through sysfs. The file operations
-- of 002 to 006 are the same code, written again in each module. dev_read.c of 003 is a program that
-- reads one of the devices. device_driver/ is a second series: char_drv.c is a character device with a
-- message and ioctl, blocking_drv.c a file in /proc that one process at a time may have open, and
-- intrpt_drv.c the same file with LEDs and interrupts; pci_drv.c, i2c_eeprom_drv.c, usb_drv.c and
-- usb_skel_drv.c are drivers on three buses, platform_drv.c is an empty platform driver,
-- sha256_drv.c logs the digest of a text, and
-- thread_completion_drv.c has two threads that wait for each other.
--
-- The files.
--   Prelude      names of the libraries, 64-bit words, integers, decimal text and its reading back, C
--                strings, list lemmas.
--   Kernel       error numbers, results, and the interfaces of the user space accessors and of the
--                text functions (kstrtol, sysfs_streq). Kernel/Flat is a user memory for the tests.
--   Setup        what init, exit, probe and remove take from the kernel and give back. Each such
--                function returns its calls in order; `replay` says what is held after them.
--   Pcd          pcd_lseek, pcd_read, pcd_write and check_permission: Core has the functions, Seek and
--                Transfer their specifications, Readback what a write and a later read do together.
--   PcdSingle    002pseudo_char_driver/pcd.c.
--   PcdLock      002pseudo_char_driver/pcd_lock.c; the mutex is a parameter.
--   PcdN         003_pseudo_char_driver_multiple/pcd_n.c: System has the steps of any number of
--                processes, Invariant and Safety what holds in every reachable state, Setup the init.
--   PcdPlatform  005_pcd_platform_driver_dt/pcd_platform_driver_dt.c: Probe has one probe, Numbers the
--                device numbers as devices come and go, Tables the names and the configuration table.
--   PcdById      004_pcd_platform_driver/pcd_platform_driver.c and pcd_device_setup.c: Numbers has the
--                device numbers as devices come and go in any order, Tables the configuration table.
--   PcdSysfs     006_pcd_sysfs: Resize has the attribute max_size and the files that are open over a
--                change of it, Failure a probe whose attribute files are refused.
--   GpioSysfs    007_gpio_sysfs/gpio-sysfs.c: Attributes has what a store does, Unregister the
--                devices that remove unregisters against those that the probe created, Labels the
--                labels of the GPIOs whose node has none.
--   Lcd          008lcd_platform_driver: Bus (gpio.c), Cmd (lcd.h), Panel (lcd.c), Attributes and
--                Probe (lcd_platform_driver.c). Controller describes the HD44780: it latches RS and
--                the data lines when EN falls, and takes two nibbles for a byte in 4-bit mode.
--                Latch, Screen, Cursor, Stores and Lifetime have what the controller receives.
--   LcdApp       007_gpio_sysfs_lcd: Cmd (lcd.h), Panel (lcd.c), Gpio (gpio.c), Main (lcd_app.c), Driver
--                (gpio-sysfs.c). Alike compares the panel code with that of Lcd; Shown, Round, Clock and
--                Loop have what the controller receives from a run of the program, Driven and Writes
--                what its writes do to the GPIO lines through the driver, System both together.
--   DevRead      003_pseudo_char_driver_multiple/dev_read.c: Rounds has one round of its loop, Total the
--                whole program on a device of PcdPlatform, whose first one has the name that it opens,
--                Names that those of pcd_n.c have other names, Failure a read that fails.
--   CharDrv      device_driver/char_drv.c: Message has what is written, read and set by ioctl, Openers
--                the open files, ShareData the attribute and the interrupts that set it, Lifetime what is
--                held after exit and after a failed init.
--   ProcFile     device_driver/blocking_drv.c: Echo has what is read after a write; Waiting has the
--                steps of processes that open and close the file, Exclusion and Progress what follows.
--   IntrptFile   device_driver/intrpt_drv.c: Leds has the reads, Lines the lines and interrupts.
--   Completions  device_driver/thread_completion_drv.c: the steps of the threads, of the init and of the
--                exit function; Ends has how a run ends.
--   PciDrv       device_driver/pci_drv.c: Leaks has what is held after a probe and a removal.
--   EepromDrv    device_driver/i2c_eeprom_drv.c: Settled has the same there.
--   PenDrv       device_driver/usb_drv.c: Bulk has the packets that are read and written.
--   PlatformDrv  device_driver/platform_drv.c: its operations only log and return 0.
--   Sha256       device_driver/sha256_drv.c: the text shown of a digest, and the init.
--   SkelDrv      device_driver/usb_skel_drv.c, the kernel's usb-skeleton driver as it is kept there: the
--                reads, Write the writes, Life the structure from the probe to its end. Buffer and Stream
--                have what one read does to the data, Returns and Ends what it returns and when, Settled
--                what one write keeps, History what holds after any calls, Lifetime when the structure
--                is freed.
--
-- How code and model correspond. A function of the source has the function of the same name; it takes
-- the state that it reads and returns the state that it changes, with `Ret` for what it returns to the
-- kernel (`error e` is -e). Addresses, offsets and counts are 64-bit words and wrap as the source's
-- do on a 64-bit machine: `loff_t`, `size_t` and `long` have 64 bits, `int` has 32, and a comparison
-- of a signed with an unsigned word is unsigned. An access outside a buffer gives `overrun`: the model
-- does not say what happens after it. On the panel, a call gives the sequence of line changes and
-- delays that it makes.
--
-- Termination and fuel. No loop of the source runs on fuel: the loops of pcd_n.c and of the LCD probe
-- run over a number of rounds that the source fixes, as do those of dev_read.c (two reads), char_drv.c and
-- blocking_drv.c (the size of the message, or the length asked for); those of gpio-sysfs.c run over the
-- children of the node, and those that print a text over it. The loop of the LCD program does not end: a
-- run of it has any number of rounds. The read of usb_skel_drv.c goes back to `retry` for as long as the
-- device sends nothing: it runs over the passes that it makes, and gives no result when they are used up
-- (SkelDrv/Ends has when it ends). The loop of module_open in blocking_drv.c is a step relation, and so
-- are the threads of thread_completion_drv.c.
-- Prelude/Decimal prints up to 20 digits, which 64 bits do not exceed.
--
-- What the kernel does is a parameter: its answer to each call that can fail, the user space accessors
-- (`UaccessLaws`: nothing left uncopied means that the bytes are there), the mutex (`MutexLaws`: held
-- is not acquired, free is), krealloc (`KreallocLaws`: the size asked for,
-- which is documented for memory of kmalloc, while the driver passes it memory of devm_kzalloc), GPIO
-- descriptors (`GpioLaws`: a direction read is the one set, and an output is driven at the level set), vsprintf
-- (`VsprintfLaws`: a format without a '%' is copied), kstrtol and sysfs_streq.
-- For the LCD program, `Grants` says that the files are there, that their texts are read as C strings,
-- and that every line can be an output.
-- The premises of a step of PcdN/System are what the VFS checks before it calls a driver; pread64 and
-- pwrite64 bring positions that no driver function has checked.
--
-- Not modelled: log messages; the pointers of the driver model (class, cdev, drvdata) beyond their
-- being held; concurrent calls inside one file operation, but for opening blocking_drv.c's file; the
-- timing of the panel beyond the order of its delays; what vsprintf makes of a '%' in the message of
-- the LCD program; values that the source leaves undetermined (the results of test_write, module_input and
-- intrpt_input). The close of blocking_drv.c's file is one step with its wake_up. Of device_driver/, the
-- demonstrations of locks, work queues and tasklets are not modelled; the test programs are C++ that opens
-- a device and logs. The calls of usb_skel_drv.c run one after another, with the ends of its transfers
-- between them and at the points where a read waits.
pub mod Prelude
pub mod Kernel
pub mod Pcd
pub mod Setup
pub mod PcdSingle
pub mod PcdLock
pub mod PcdN
pub mod PcdPlatform
pub mod PcdById
pub mod PcdSysfs
pub mod GpioSysfs
pub mod CharDrv
pub mod Completions
pub mod DevRead
pub mod EepromDrv
pub mod PciDrv
pub mod PenDrv
pub mod PlatformDrv
pub mod Sha256
pub mod SkelDrv
pub mod ProcFile
pub mod IntrptFile
pub mod Lcd
pub mod LcdApp
