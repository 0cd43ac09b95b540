-- ===== src/Lib.antt =====
-- Bang, a UEFI bootloader: it reads `\bang.cfg`, looks for other loaders, offers a menu, and boots
-- what is chosen: a Multiboot kernel that it loads itself, another UEFI application, or Linux.
--
-- The parts, in the order in which `main` meets them, with the files that model them:
--
--   src/config.rs      Config.antt: `parse` as a state (`Parse`) that `step` carries over the lines.
--                      Config/Laws.antt has what holds of every configuration. Config/Load.antt:
--                      `load`, over the file that opens and what one read of it gives; its bytes
--                      are taken apart by `str::from_utf8` (Common/Text/Utf8.antt).
--                      Config/Print.antt: a printed form of a configuration, with which the parser
--                      is compared: one line in Config/Print/Step.antt, the entries in
--                      Config/Print/Entries.antt and Config/Print/Reading.antt, the whole in
--                      Config/Print/RoundTrip.antt, and any text's in Config/Print/SoFar.antt and
--                      Config/Print/Normal.antt.
--   src/discover.rs    Discover.antt: `scan` over the volumes and their directories, with the buffer
--                      that grows; `own_image` and `file_path_of` are its parameter `own`.
--                      Discover/Reading.antt, Discover/Offer.antt, Discover/Laws.antt.
--   src/main.rs        Boot.antt: the list of entries (`offered`), the entry taken (`taken`), and how
--                      a loaded kernel is entered (`enter`). Boot/Entries.antt, Boot/Handoff.antt.
--                      Where the parts meet: Boot/Information.antt takes the boot modules from their
--                      directory into the kernel's information, Boot/Kernel.antt is `main` from a
--                      loaded kernel to the jump, and Boot/Machine.antt takes the kernel to its first
--                      instruction. Boot/Main.antt: `main` from `load` to one of its endings, over
--                      the firmware's answers (`World`): the entry that it takes in
--                      Boot/Main/Choice.antt, a kernel with its modules in Boot/Main/Kernel.antt, and
--                      the kernel's own image, to the kernel's first instruction, in
--                      Boot/Main/Image.antt.
--                      Boot/Wide.antt: `wcslen`.
--   src/menu.rs        Menu.antt: `choose` over the answers of `poll_key`, one for each round of its
--                      loop; what is written is a list of events. Menu/Choice.antt,
--                      Menu/Unattended.antt, and Menu/Screen.antt: where it is drawn.
--   src/elf.rs         Elf.antt; Elf/Detect.antt: `detect_multiboot_version`; Elf/Segment.antt:
--                      `load_segment` and its record of pages; Elf/Kernel.antt: `load_kernel` from
--                      the bytes of the file; Elf/Kernel/File.antt: the reading of it;
--                      Elf/Kernel/Image.antt: memory after all segments, and
--                      Elf/Kernel/Owned.antt: that it is the loader's own.
--   src/modules.rs     Modules.antt: the buffer of names and `store_name`; Modules/Loading.antt:
--                      `load_modules`, with what a module is in memory in
--                      Modules/Loading/Intact.antt, one file in Modules/Loading/Stored.antt, one
--                      entry in Modules/Loading/Entry.antt, the loop in Modules/Loading/Rounds.antt
--                      and the entry that it never gets past in Modules/Loading/Endless.antt.
--   src/gop.rs         Gop.antt: `query_gop` from the mode that the protocol reports.
--   src/linux.rs       Linux.antt: the checks of a bzImage, `place_kernel`, `boot_params`;
--                      Linux/Image.antt, Linux/Params.antt. Linux/Reading.antt: `read_file`;
--                      Linux/Command.antt: the command line; Linux/Boot.antt: `boot`, store by store,
--                      with what the kernel finds in Linux/Handed.antt and the modules under it.
--   src/chain.rs       Chain.antt: `full_path` and `boot`, over the firmware's answers and the builder
--                      of device paths; Chain/Path.antt.
--   src/trampoline.rs, src/handoff.rs
--                      Trampoline.antt: the code, on the machine of registers, tables and memory of
--                      Trampoline/Machine.antt. Trampoline/Slots.antt: the memory that the 64-bit
--                      part leaves, Trampoline/Left.antt: the machine then, Trampoline/Entered.antt:
--                      at the kernel.
--   src/multiboot.rs   Multiboot.antt; Multiboot/Mb2.antt: `build_mb2_info`, one function for each
--                      part of its body. Multiboot/Mb2/Tags.antt is the abstract view, a list of
--                      tags; Multiboot/Mb2/Kernel.antt walks them as a kernel does.
--                      Multiboot/Mb1.antt: `build_mb1_info`, with what a kernel finds in
--                      Multiboot/Mb1/Kernel.antt. Multiboot/Acpi.antt: `find_rsdp`;
--                      Multiboot/Reserve.antt: `reserve`.
--
-- How it is modelled. Numbers are natural numbers and a machine word's wrap-around is written out,
-- as a release build computes it. Memory is a function from addresses to bytes; a store is `write`.
-- A function that may panic returns `none` or a `panic`. The parts that belong to the firmware and to
-- the `uefi` crate are parameters: `allocate_pages` (`allocate`, with its documented behaviour in
-- Elf/Segment/Claim.antt, `Firmware`), `CString16::try_from` (`path`), the keys, and the memory map.
--
-- Uefi.antt has the firmware's side as interfaces, with what UEFI documents: directories
-- (`DirectoryReader`), pages below a limit or at an address (`LowMemory`, `FixedMemory`) and files
-- (`FileReader`). The machine of Trampoline/Machine.antt has the checks of the processor that the
-- code can run into: the table's limit, and the stores to CR0 and EFER that fault. It follows the
-- jumps: a 32-bit part runs only if the jump before it went to its label (`reached`), and a
-- model-specific register other than EFER, or another target, counts as a fault. Where the assembler
-- puts the labels of the copied piece is the parameter `Layout`, with what the code relies on in
-- `IsPlaced`: the slots come first, as the comment in the source says, the tables hold the source's
-- bytes, and the piece and the stack lie above its copy.
--
-- Fuel. The loops over pages are given one more than the number of pages, the header scans one more
-- than the number of strides, the scan of a directory two rounds for each entry and one more, the
-- loading of modules one more than the entries, and the reading of a file one more than its bytes; all
-- are shown to be enough. The length of a module's name is looked for in 4096 bytes, the whole of the
-- buffer that `store_name` writes names to.
--
-- Not modelled: the opening of volumes, directories and files, whose answers are parameters, what is
-- printed on the way, and the banner of console.rs. In `main` as a whole the answers of the firmware
-- that do not depend on its memory are one value each (`World`): a file that is opened again
-- answers as before, and the memory map is the one that exit_boot_services returns.
mod Common
mod Tests
pub mod Boot
pub mod Chain
pub mod Config
pub mod Discover
pub mod Elf
pub mod Gop
pub mod Linux
pub mod Menu
pub mod Modules
pub mod Multiboot
pub mod Trampoline
pub mod Uefi
