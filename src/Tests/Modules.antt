-- ===== src/Tests/Modules.antt =====
-- Runs of the buffer of module names.
use bang.Common.{◌≡◌, refl, inl, [], ◌∷◌, ◌++◌, arith, read, write}
use bang.Common.Text.{codes}
use bang.Modules.{NameBuffer, store_name, write_name, to_ascii}
use bang.Modules.Names.{IsNameBuffer, IsStored, store_name-IsStored}

abbrev empty : NameBuffer
empty = record { mem = λ a. 0; pos = 0 }

read-store_name :
    read 5 0x5000 (store_name 0x5000 (codes "vf" ++ 0xe9 ∷ 0 ∷ 7 ∷ []) empty).1.mem
    ≡ codes "vf?" ++ 0 ∷ 0 ∷ []
unfolding store_name write_name to_ascii write
read-store_name = refl

empty-IsNameBuffer : IsNameBuffer 0x5000 empty
empty-IsNameBuffer = record { within = omega arith; terminated = inl refl }

store_name-IsStored_example :
    IsStored 0x5000 (codes "vfs" ++ 0 ∷ []) empty (store_name 0x5000 (codes "vfs" ++ 0 ∷ []) empty)
store_name-IsStored_example =
    store_name-IsStored 0x5000 (codes "vfs" ++ 0 ∷ []) empty empty-IsNameBuffer
