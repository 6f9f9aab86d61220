-- ===== src/Disk/Writes.antt =====
-- How much a history writes, and the two ends of the extraction of a file.
use crimp.Common.{Bool, Bytes, [], false, length, true, ℕ, ◌+◌, ◌∷◌, ◌≡◌, ◌⊎◌}
use crimp.Disk.{Operation, mkdir, create, write, discard, History}

abbrev op_size : Operation → ℕ
op_size (mkdir path) = 0
op_size (create path) = 0
op_size (write path block) = length block
op_size (discard path) = 0

-- The number of bytes that the calls of a history write.
abbrev pub written : History → ℕ
written [] = 0
written (op ∷ history) = op_size op + written history

-- The two ends of an extraction: the whole file, or no file that was begun and not removed.
abbrev pub Extracted : ℕ → Bytes → History → History × Bool → Type 0
Extracted size path history r =
    ((r.1 ≡ true) × (written r.0 ≡ size + written history))
    ⊎ ((r.1 ≡ false) × ((r.0 ≡ history) ⊎ ((h : History) × (r.0 ≡ discard path ∷ h))))
