-- ===== src/Chain/Path.antt =====
-- src/chain.rs: the application that runs was loaded by the path of its own file.
use bang.Common.{ℕ, true, false, Option, some, List, [], ◌∷◌, ◌++◌, ◌≡◌}
use bang.Common.Text.{Text}
use bang.Chain.{Node, is_end, PathBuilder, Images, device_or_own}

-- What stands before the end of the device's path.
pub data IsBefore : List Node → List Node → Type 0 where
  no_end : IsBefore [] []
  at_end : (n : Node) (ns : List Node) → is_end n ≡ true → IsBefore (n ∷ ns) []
  inside :
      (n : Node) {ns before : List Node}
      → is_end n ≡ false
      → IsBefore ns before
      → IsBefore (n ∷ ns) (n ∷ before)

module _ (b : PathBuilder) (f : Images) where
  -- The device's nodes without the end, the file's node, and one end.
  pub record IsPath (device : Option ℕ) (file : Text) (path : List Node) : Type 0 where
    pub device_used : ℕ
    pub is_device : device_or_own b f device ≡ some device_used
    pub nodes : List Node
    pub is_device_path : f.device_path device_used ≡ some nodes
    pub before : List Node
    pub is_before : IsBefore nodes before
    pub is_whole : path ≡ before ++ b.file_path file ∷ b.close ∷ []
