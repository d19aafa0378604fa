-- ===== src/Fat.antt =====
-- kernel/fat32.c: the FAT32 reader. `Boot` is the boot sector and mounting, `Table` the file
-- allocation table with its cached sector, `File` reading a file, `Dir` directories.
pub mod Disk
pub mod Boot
pub mod Table
pub mod File
pub mod Dir
mod Tests
