-- ===== src/OpenFlow/Names.antt =====
-- minion/ipdef/ipdef.go: the names of interfaces fit into the kernel's buffer, and short ones are kept.
use Prim.Native.Char.{Char, len_utf8}
use Prim.Native.String.{len, slice, fits}
use Prim.Native.Nat.{Ordering, compare}
use Prim.Native.String.slice
use Prim.Native.String.len
use quilt.Prelude.{ℕ, ◌-◌, ◌≡◌, refl, ◌≤◌, ◌<◌, String, arith, Bool-cases, inl, inr, ltb}
use quilt.OpenFlow.Containers.{if_name}

-- A character that fits leaves the rest within what is left.
fits-len :
    (c : Char) (b : ℕ) (s : String) (o : Ordering)
    → compare (len_utf8 c) b ≡ o
    → len s ≤ b - len_utf8 c
    → len (fits o c s) ≤ b
fits-len c b s Ordering.lt e h = rw (len.cons c s) (ground arith)
fits-len c b s Ordering.eq e h = rw (len.cons c s) (ground arith)
fits-len c b s Ordering.gt e h = rw len.nil (omega arith)

slice-len : (s : String) (b : ℕ) → len (slice s 0 b) ≤ b
slice-len String.[] b = rw (slice.nil 0 b, len.nil) (omega arith)
slice-len (String.◌∷◌ c s) b = rw (slice.cons-zero c s b) (
    fits-len c b (slice s 0 (b - len_utf8 c)) (compare (len_utf8 c) b) refl
      (slice-len s (b - len_utf8 c)))

-- The name of an interface is shorter than the buffer, so that the NULL at its end has room, and a name that
-- leaves a byte besides is kept.
pub if_name-len :
    (n : ℕ) (name : String)
    → 0 < n
    → (len (if_name n name) < n) × (len name < n - 1 → if_name n name ≡ name)
unfolding if_name
if_name-len n name h = elim (Bool-cases (ltb (len name) (n - 1))) [
  | inl e ↦ rw e (ground arith, λ k. refl)
  | inr e ↦ rw e (omega (arith, slice-len name (n - 1)), λ k. absurd (ground arith))
]
