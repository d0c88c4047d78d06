-- ===== src/Common/Bytes.antt =====
-- Bytes as numbers below 256, and Python's `int.to_bytes` and `int.from_bytes` at "big".
use emule_indexer.Common.Lists.{length, All, All-append, length-append}
use Prim.Native.Nat.{ℕ, zero, suc, ◌+◌, ◌*◌, ◌/◌, ◌%◌, ◌^◌, ◌≤◌, ◌<◌}
use mathlib.Core.Path.{◌≡◌, refl, sym, ap, ◌∙◌}
use mathlib.Core.List.{List, [], ◌∷◌, ◌++◌, append-nil, append_assoc}
use native.Mathlib.Nat.{pow-suc, mul-le-mul_right}
use native.Mathlib.Omega.{arith}

abbrev pub Bytes : Type 0
Bytes = List ℕ

abbrev pub IsByte : ℕ → Type 0
IsByte b = b < 256

-- The `w` bytes of `n`, most significant first. Python refuses `n` at `256 ^ w` and above.
unfoldable pub to_bytes : ℕ → ℕ → Bytes
to_bytes zero n = []
to_bytes (suc w) n = to_bytes w (n / 256) ++ (n % 256 ∷ [])

from_bytes_acc : ℕ → Bytes → ℕ
from_bytes_acc acc [] = acc
from_bytes_acc acc (b ∷ bs) = from_bytes_acc (acc * 256 + b) bs

unfoldable pub from_bytes : Bytes → ℕ
unfolding from_bytes_acc
from_bytes bs = from_bytes_acc 0 bs

pub length-to_bytes : (w n : ℕ) → length (to_bytes w n) ≡ w
unfolding to_bytes
length-to_bytes zero n = refl
length-to_bytes (suc w) n =
    omega (arith, length-append (to_bytes w (n / 256)) (n % 256 ∷ []), length-to_bytes w (n / 256))

pub to_bytes-IsByte : (w n : ℕ) → All IsByte (to_bytes w n)
unfolding to_bytes
to_bytes-IsByte zero n = tt
to_bytes-IsByte (suc w) n =
    All-append IsByte (to_bytes w (n / 256)) (n % 256 ∷ []) (to_bytes-IsByte w (n / 256))
      (omega arith)

from_bytes_acc-append :
    (acc : ℕ) (xs ys : Bytes)
    → from_bytes_acc acc (xs ++ ys) ≡ from_bytes_acc (from_bytes_acc acc xs) ys
unfolding from_bytes_acc
from_bytes_acc-append acc [] ys = refl
from_bytes_acc-append acc (x ∷ xs) ys = from_bytes_acc-append (acc * 256 + x) xs ys

-- Reading back what fits its width.
pub from_bytes-to_bytes : (w n : ℕ) → n < 256 ^ w → from_bytes (to_bytes w n) ≡ n
unfolding from_bytes to_bytes
from_bytes-to_bytes zero n h = omega arith
from_bytes-to_bytes (suc w) n h =
    from_bytes_acc-append 0 (to_bytes w (n / 256)) (n % 256 ∷ [])
    ∙ omega (arith, from_bytes-to_bytes w (n / 256) (omega arith))

to_bytes-acc :
    (bs : Bytes) (k acc : ℕ)
    → All IsByte bs
    → to_bytes (length bs + k) (from_bytes_acc acc bs) ≡ to_bytes k acc ++ bs
unfolding from_bytes_acc to_bytes
to_bytes-acc [] k acc h = let e : 0 + k ≡ k = omega arith in rw (e, append-nil)
to_bytes-acc (b ∷ bs) k acc (hb, hs) =
    let e : suc (length bs) + k ≡ length bs + suc k = omega arith in
    let q : (acc * 256 + b) / 256 ≡ acc = omega arith in
    let r : (acc * 256 + b) % 256 ≡ b = omega arith in
    rw (e, to_bytes-acc bs (suc k) (acc * 256 + b) hs, q, r)
      (append_assoc (to_bytes k acc) (b ∷ []) bs)

pub to_bytes-from_bytes : (bs : Bytes) → All IsByte bs → to_bytes (length bs) (from_bytes bs) ≡ bs
unfolding from_bytes to_bytes
to_bytes-from_bytes bs h =
    let e : length bs + 0 ≡ length bs = omega arith in
    ap (λ (k : ℕ). to_bytes k (from_bytes bs)) (sym e) ∙ to_bytes-acc bs 0 0 h

from_bytes_acc-lt :
    (acc : ℕ) (bs : Bytes) → All IsByte bs → from_bytes_acc acc bs < (acc + 1) * 256 ^ length bs
unfolding from_bytes_acc
from_bytes_acc-lt acc [] h = omega arith
from_bytes_acc-lt acc (b ∷ bs) (hb, hs) =
    let step : acc * 256 + b + 1 ≤ (acc + 1) * 256 = omega arith in
    rw pow-suc (
      omega
        (arith, from_bytes_acc-lt (acc * 256 + b) bs hs, mul-le-mul_right (256 ^ length bs) step))

pub from_bytes-lt : (bs : Bytes) → All IsByte bs → from_bytes bs < 256 ^ length bs
unfolding from_bytes
from_bytes-lt bs h = omega (arith, from_bytes_acc-lt 0 bs h)

pub from_bytes-one : (b : ℕ) → from_bytes (b ∷ []) ≡ b
unfolding from_bytes
from_bytes-one b = omega arith
