-- ===== src/Boot.antt =====
-- src/main.rs: the list of entries that `main` offers, the entry that it takes, and how a
-- Multiboot kernel is entered. Handles are numbers.
pub mod Entries
pub mod Handoff
pub mod Kernel
pub mod Information
pub mod Machine
pub mod Main
pub mod Wide
use bang.Common.{
  ℕ, ◌+◌, ◌%◌, ◌^◌, Bool, true, false, ◌&&◌, ◌||◌, Option, none, some, List, [], ◌∷◌, ◌++◌, ◌==◌,
  if◌then◌else◌, get_elem?,
}
use bang.Common.Text.{Text, text_eq}
use bang.Config.{Target, multiboot, chainload, linux, Entry, Config, builtin, parse}
use bang.Discover.{Found}
use bang.Elf.{BootMode, protected32, long64, KernelInfo}
use bang.Menu.{Console, Key, Next, chosen, again, choose}

-- `device.unwrap_or(found.device)`
abbrev unwrap_or : Option ℕ → ℕ → ℕ
unwrap_or none d = d
unwrap_or (some h) d = h

-- Whether an entry already names what was found.
unfoldable pub names : Found → Target → Bool
unfolding text_eq unwrap_or
names found (chainload path device) =
    text_eq path found.path && unwrap_or device found.device == found.device
names found (multiboot kernel modules) = false
names found (linux kernel initrd cmdline) = false

-- `entries.iter().any(…)`
unfoldable pub already : Found → List Entry → Bool
already found [] = false
already found (e ∷ es) = names found e.target || already found es

abbrev pub entry_of : Found → Entry
entry_of found = record { title = found.title; target = chainload found.path (some found.device) }

-- The loop over what `discover::scan` returned.
unfoldable pub add_found : List Found → List Entry → List Entry
unfolding already names
add_found [] es = es
add_found (found ∷ rest) es =
    add_found rest (if already found es then es else es ++ entry_of found ∷ [])

-- `config::load().unwrap_or_else(Config::builtin)`
abbrev pub loaded_or_builtin : Option Config → Config
loaded_or_builtin none = builtin
loaded_or_builtin (some c) = c

-- With the loaders that were found, if they are wanted.
abbrev pub with_found : Config → List Found → Config
with_found cfg found =
    if cfg.autodetect then record cfg { entries = add_found found cfg.entries } else cfg

unfoldable pub offered : Option Config → List Found → Config
offered loaded found = with_found (loaded_or_builtin loaded) found

-- `&cfg.entries[choice]`; `none` is the panic of an index out of range.
unfoldable pub taken : Config → ℕ → Option Entry
taken cfg choice = get_elem? cfg.entries choice

-- What the kernel is told, by which builder, and how it is entered.
pub data Info : Type 0 where
  mb1_info mb2_info no_info : Info

pub data Jump : Type 0 where
  -- `boot_jump_to_kernel(entry, mbi_addr, magic)`
  trampoline : ℕ → Info → ℕ → Jump
  -- `boot_handoff_64(entry, boot_info_ptr)`
  handoff : ℕ → Info → Jump

abbrev pub mb1_boot_magic : ℕ
mb1_boot_magic = 0x2bad_b002

abbrev pub mb2_boot_magic : ℕ
mb2_boot_magic = 0x36d7_6289

unfoldable pub enter_in : BootMode → KernelInfo → Jump
enter_in protected32 k =
    if k.mb_version == 1
    then trampoline (k.entry_point % 2 ^ 32) mb1_info mb1_boot_magic
    else trampoline (k.entry_point % 2 ^ 32) mb2_info mb2_boot_magic
enter_in long64 k = handoff k.entry_point (if k.mb_version == 2 then mb2_info else no_info)

-- The `match kernel.boot_mode` after boot services are exited.
unfoldable pub enter : KernelInfo → Jump
unfolding enter_in
enter k = enter_in k.boot_mode k
