-- ===== src/Chain.antt =====
-- src/chain.rs: the device path of another application, and what becomes of starting it. Handles
-- are numbers, and the firmware and the `uefi` crate's builder of device paths are parameters.
pub mod Path
use bang.Common.{
  ℕ, Bool, true, false, ◌&&◌, Option, none, some, List, [], ◌∷◌, ◌++◌, ◌≡◌, ◌⊎◌, inl, inr, ◌>>=◌,
  ◌==◌, if◌then◌else◌,
}
use bang.Common.Text.{Text}

pub record Node : Type 0 where
  pub device_type : ℕ
  pub sub_type : ℕ
  pub bytes : List ℕ

-- `(DeviceType::END, DeviceSubType::END_ENTIRE)`
abbrev pub is_end : Node → Bool
is_end n = n.device_type == 0x7f && n.sub_type == 0xff

-- `DevicePathBuilder`, which puts a node behind those it has or refuses, and closes the path with
-- `close`; and the node of `media::FilePath`.
pub record PathBuilder : Type 0 where
  pub push : List Node → Node → Option (List Node)
  pub finalize : List Node → Option (List Node)
  pub file_path : Text → Node
  pub close : Node
  pub pushes : (ns ns' : List Node) (n : Node) → push ns n ≡ some ns' → ns' ≡ ns ++ n ∷ []
  pub closes : (ns ns' : List Node) → finalize ns ≡ some ns' → ns' ≡ ns ++ close ∷ []

-- The answers of the firmware: the device of Bang's own image, the path of a device, the image
-- loaded from a path or a status, and the status of an image that fails.
pub record Images : Type 1 where
  pub Image : Type 0
  pub own_device : Option ℕ
  pub device_path : ℕ → Option (List Node)
  pub load_image : List Node → Image ⊎ ℕ
  pub start_image : Image → Option ℕ

pub data Status : Type 0 where
  success not_found : Status
  status : ℕ → Status

module _ (b : PathBuilder) (f : Images) where
  -- The loop over the nodes, up to the end node.
  unfoldable pub push_nodes : List Node → List Node → Option (List Node)
  push_nodes [] built = some built
  push_nodes (n ∷ ns) built = elim (is_end n) [
    | true ↦ some built
    | false ↦ b.push built n >>= push_nodes ns
  ]

  abbrev pub device_or_own : Option ℕ → Option ℕ
  device_or_own none = f.own_device
  device_or_own (some d) = some d

  unfoldable pub full_path : Option ℕ → Text → Option (List Node)
  unfolding push_nodes
  full_path device file = device_or_own device >>= λ d. f.device_path d >>= λ ns.
      push_nodes ns [] >>= λ built. b.push built (b.file_path file) >>= b.finalize

  abbrev pub ended : Option ℕ → Status
  ended none = success
  ended (some code) = status code

  abbrev pub started : f.Image ⊎ ℕ → Status
  started (inl image) = ended (f.start_image image)
  started (inr code) = status code

  abbrev pub loaded : Option (List Node) → Status
  loaded none = not_found
  loaded (some path) = started (f.load_image path)

  unfoldable pub boot : Option ℕ → Text → Status
  unfolding full_path
  boot device file = loaded (full_path device file)
