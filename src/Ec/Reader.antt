-- ===== src/Ec/Reader.antt =====
-- codec.py: the bounded cursor `_Reader`, and parsers over it.
use emule_indexer.Common.{
  ℕ, ◌+◌, Bool, List, [], ◌∷◌, ltb, ◌==◌, if◌then◌else◌, length, drop, ◌≡◌, refl, Result, ok, err,
}
use emule_indexer.Common
use emule_indexer.Common.Bytes.{Bytes, from_bytes}
use emule_indexer.Ec.Tag.{EcError, ec_protocol_error}

pub record Reader : Type 0 where
  pub bytes : Bytes
  pub pos : ℕ

unfoldable pub exhausted : Reader → Bool
exhausted r = r.pos == length r.bytes

abbrev pub Parser : Type 0 → Type 0
Parser A = Reader → Result EcError (A × Reader)

infixl 5 ◌>>=◌ ◌>>◌
abbrev pub ◌>>=◌ : {A B : Type 0} → Parser A → (A → Parser B) → Parser B
◌>>=◌ p f r = Common.◌>>=◌ (p r) (λ t. f t.0 t.1)

abbrev pub ◌>>◌ : {A B : Type 0} → Parser A → Parser B → Parser B
p >> q = p >>= λ _. q

abbrev pub pure : {A : Type 0} → A → Parser A
pure a r = ok (a, r)

abbrev pub fail : {A : Type 0} → EcError → Parser A
fail e r = err e

abbrev pub position : Parser ℕ
position r = ok (r.pos, r)

unfoldable pub take : ℕ → Parser Bytes
take count r =
    if ltb (length r.bytes) (r.pos + count)
    then err ec_protocol_error
    else ok (Common.take count (drop r.pos r.bytes), record r { pos = r.pos + count })

-- `int.from_bytes(self.take(w), "big")`; of one byte that is the byte itself.
abbrev pub read_int : ℕ → Parser ℕ
read_int w = do chunk ← take w; pure (from_bytes chunk)

abbrev pub read_u8 : Parser ℕ
read_u8 = read_int 1

abbrev pub read_u16 : Parser ℕ
read_u16 = read_int 2

abbrev pub read_u32 : Parser ℕ
read_u32 = read_int 4

bind-ok :
    {A B : Type 0} (m : Result EcError (A × Reader)) (f : A → Parser B) {b : B} {r : Reader}
    → Common.◌>>=◌ m (λ t. f t.0 t.1) ≡ ok (b, r)
    → (a : A) × (r' : Reader) × (m ≡ ok (a, r')) × (f a r' ≡ ok (b, r))
bind-ok (ok (a, r')) f h = (a, r', refl, h)
bind-ok (err e) f h = cc

-- Inversion of a successful bind.
pub parser_bind-ok :
    {A B : Type 0} (p : Parser A) (f : A → Parser B) (start : Reader) {b : B} {r : Reader}
    → (p >>= f) start ≡ ok (b, r)
    → (a : A) × (r' : Reader) × (p start ≡ ok (a, r')) × (f a r' ≡ ok (b, r))
parser_bind-ok p f start h = bind-ok (p start) f h
