-- ===== src/Tests/Chain.antt =====
-- A run of the chainloading of Windows' boot manager.
use bang.Common.{
  ℕ, Option, none, some, List, [], ◌∷◌, ◌++◌, ◌≡◌, refl, sym, inl, if◌then◌else◌, ◌==◌,
}
use bang.Common.Text.{Text, codes}
use bang.Chain.{Node, PathBuilder, Images, push_nodes, full_path}

abbrev pub close : Node
close = record { device_type = 0x7f; sub_type = 0xff; bytes = [] }

abbrev pub disk : Node
disk = record { device_type = 2; sub_type = 1; bytes = 7 ∷ [] }

pub some-inj : {x y : List Node} → some x ≡ some y → x ≡ y
some-inj e = cc

abbrev pub builder : PathBuilder
builder = record {
  push = λ ns n. some (ns ++ n ∷ []);
  finalize = λ ns. some (ns ++ close ∷ []);
  file_path = λ name. record { device_type = 4; sub_type = 4; bytes = name };
  close = close;
  pushes = λ ns ns' n e. sym (some-inj e);
  closes = λ ns ns' e. sym (some-inj e);
}

abbrev pub path_of : ℕ → Option (List Node)
path_of d = if d == 9 then some (disk ∷ close ∷ disk ∷ []) else none

-- An image is its path, and returns.
abbrev pub images : Images
images = record {
  Image = List Node;
  own_device = some 9;
  device_path = path_of;
  load_image = λ path. inl path;
  start_image = λ path. none;
}

abbrev manager : Text
manager = codes "\\EFI\\Microsoft\\Boot\\bootmgfw.efi"

full_path-manager :
    full_path builder images none manager
    ≡ some (disk ∷ record { device_type = 4; sub_type = 4; bytes = manager } ∷ close ∷ [])
unfolding full_path push_nodes
full_path-manager = refl
