-- ===== src/Lib.antt =====
-- Bloom-OS, a hobby operating system: the parts of its kernel that manage memory, block devices,
-- partitions, files, keys and text, modelled function by function and proved correct.
--
-- Pmm models kernel/pmm.c, the bitmap of physical pages.
-- Block models kernel/blockdev.c, the table of block devices and `BlockReadFrom`.
-- Fat models kernel/fat32.c, the FAT32 reader, which reads through the block layer and takes its
-- buffers from the page allocator. Fat/Disk is the interface between the two: what a client of the
-- block layer relies on.
-- Fat/Dir lists directories and looks names up, with the long names; Fat/Dir/Same says when two names
-- are the same.
-- Part models kernel/part.c, the table of partitions: Part/Names has the types and texts, Part/Gpt
-- the GUID table, Part/Mbr the table of the first sector with its chain of extended records,
-- Part/Device the scan of a device. It reads through the block layer.
-- Fs models the paths and the volumes of kernel/fs.c: Fs/Paths splits a path into components, Fs
-- resolves it by the look-ups of Fat/Dir. The mounting of partitions is not modelled.
-- Wav models kernel/wav.c, the header of a WAVE file and the conversion of samples.
-- Keyboard models kernel/keyboard.c: Ring is the queue of keys, Handler the interrupt handler.
-- Mouse models kernel/mouse.c, the packets of the mouse. Klog models kernel/klog.c, the log.
-- Errors models kernel/errors.c. Ui models the helpers of kernel/ui.c on texts and numbers.
-- Viewer models kernel/viewer.c without its drawing: Viewer/Load loads a file through Fs, Viewer cuts
-- it into rows and turns pages, Viewer/Search finds texts, Viewer/Keys handles keys and clicks.
-- Msc models kernel/usbmsc.c: Msc has the commands, Msc/Luns the table of units. The host
-- controller's driver, kernel/xhci.c, is the interface `Transport`. Msc/Wire says what a command asks
-- for by the layout of its bytes, Msc/Reads what a device that keeps to the protocol does.
-- Explorer models kernel/explorer.c without its drawing: Explorer has the entries and their order,
-- Explorer/Sort the shell sort of their indices, Explorer/Listing the reading of folders through Fs.
-- Console models kernel/console.c without its drawing. Its loop for a tab need not end: it runs on
-- fuel, and Console/Tab says when it ends.
-- The start-up of these devices and the waiting for their controller are port accesses and not
-- modelled; what a handler reads from a port is its argument.
-- Prelude has what the parts share: tests on numbers, lists as arrays, bits of bytes,
-- little-endian words, runs of bytes of a medium.
--
-- Static variables are records that a function takes and returns. Machine words are natural numbers
-- with the wrap-around written out. A C string is the list of its characters without the
-- terminating zero; an array is a list. A hardware driver is a function from a request to the bytes
-- that it delivers, or nothing on an error; it is a parameter, and a theorem about it names the
-- device contents that it serves. Loops that are not over a list run on fuel, one more than the
-- number of sectors or bytes asked for, which every round lowers, or 2 ^ 32 for the chunks of a WAVE
-- file, whose offsets grow; the theorems on reads give the result itself. The loop over the chunks
-- has a status of its own for fuel that is used up, which is none of the program's.
-- The search for a row has as much fuel as there are rows, the loop over a row as there are bytes,
-- the sort one more than there are entries, which it halves, and loading one for each byte wanted;
-- the theorems on the viewer and the explorer give results for these. The loops over clusters of a
-- directory and over the digits of a number have the bounds of the source.
--
-- Not modelled: drawing (kernel/gfx.c, the drawing in kernel/ui.c, kernel/viewer.c,
-- kernel/explorer.c and kernel/console.c), which writes pixels; the controllers' drivers
-- (kernel/xhci.c, kernel/nvme.c, kernel/ahci.c, kernel/hda.c, kernel/pci.c), kernel/idt.c and
-- bootloader/, which are register accesses and calls of firmware; kernel/shell.c, kernel/player.c and
-- kernel/power.c, whose logic is still to come.
pub mod Prelude
pub mod Part
pub mod Msc
pub mod Explorer
pub mod Console
pub mod Errors
pub mod Ui
pub mod Viewer
pub mod Fs
pub mod Klog
pub mod Wav
pub mod Mouse
pub mod Keyboard
pub mod Pmm
pub mod Block
pub mod Fat
