-- ===== src/Vp8Header/Sizes.antt =====
-- pkg/sfu/buffer/helpers.go: the size that `Unmarshal` notes is at least that of the parts read.
use voicekit.Prelude.{
  ℕ, ◌+◌, ◌*◌, ◌/◌, ◌%◌, ◌≤◌, ◌≡◌, refl, Bool, true, false, not, ◌&&◌, ◌||◌, Option, none, some,
  List, [], ◌∷◌, if◌then◌else◌, arith,
}
use voicekit.Vp8Header.{
  Vp8, Result, ok, err, invalid_packet, bit, flag, with_first, finish, tid_in, read_tid, tl0_in,
  read_tl0, long_id_in, id_in, read_id, extension_in, unmarshal_bytes, unmarshal,
}
use mathlib.Core.Path.{subst}

-- The length of the picture id.
abbrev pub id_size : Bool → Bool → ℕ
id_size false m = 0
id_size true true = 2
id_size true false = 1

-- A descriptor with parts i, l, t or k, whose size is at least the sum of theirs.
abbrev pub IsSized : Vp8 → Type 0
IsSized v =
    (if v.i || v.l || v.t || v.k then 2 + id_size v.i v.m + flag v.l 1 + flag (v.t || v.k) 1 else 1)
    ≤ v.header_size

abbrev Holds : (Vp8 → Type 0) → Result → Type 0
Holds P (ok v) = P v
Holds P (err e) = Unit

-- What is read after `idx` bytes and the parts of `v` up to here.
abbrev IsSizedFrom : Vp8 → ℕ → ℕ → Type 0
IsSizedFrom v idx more = 2 + id_size v.i v.m + flag v.l 1 + flag (v.t || v.k) 1 ≤ idx + more

finish-IsSized :
    (v : Vp8) (idx : ℕ) (bytes : List ℕ) → IsSizedFrom v idx 0 → Holds IsSized (finish v idx bytes)
finish-IsSized v idx [] h = tt
finish-IsSized v idx (b ∷ rest) h = go (v.i || v.l || v.t || v.k) h
  where
    go :
        (b : Bool)
        → 2 + id_size v.i v.m + flag v.l 1 + flag (v.t || v.k) 1 ≤ idx + 0
        → (if b then 2 + id_size v.i v.m + flag v.l 1 + flag (v.t || v.k) 1 else 1) ≤ idx
    go true h = omega arith
    go false h = omega arith

pick :
    (P : Vp8 → Type 0) (b : Bool) (x y : Result)
    → (b ≡ true → Holds P x)
    → (b ≡ false → Holds P y)
    → Holds P (if b then x else y)
pick P true x y f g = f refl
pick P false x y f g = g refl

flag-true : {b : Bool} → b ≡ true → flag b 1 ≡ 1
flag-true e = rw e refl

flag-false : {b : Bool} → b ≡ false → flag b 1 ≡ 0
flag-false e = rw e refl

tid_in-IsSized :
    (v : Vp8) (idx : ℕ) (bytes : List ℕ) → IsSizedFrom v idx 1 → Holds IsSized (tid_in v idx bytes)
tid_in-IsSized v idx [] h = tt
tid_in-IsSized v idx (b ∷ rest) h =
    let w : Vp8 = record v {
      tid = if v.t then b / 64 % 4 else v.tid;
      y = if v.t then bit 32 b else v.y;
      key_idx = if v.k then b % 32 else v.key_idx;
    } in
    finish-IsSized w (idx + 1) rest (omega arith)

read_tid-IsSized :
    (v : Vp8) (idx : ℕ) (bytes : List ℕ)
    → IsSizedFrom v idx (flag (v.t || v.k) 1)
    → Holds IsSized (read_tid v idx bytes)
read_tid-IsSized v idx bytes h =
    pick IsSized (v.t || v.k) (tid_in v idx bytes) (finish v idx bytes)
      (λ e. tid_in-IsSized v idx bytes (omega (arith, flag-true e)))
      (λ e. finish-IsSized v idx bytes (omega (arith, flag-false e)))

tl0_in-IsSized :
    (v : Vp8) (idx : ℕ) (bytes : List ℕ)
    → IsSizedFrom v idx (1 + flag (v.t || v.k) 1)
    → Holds IsSized (tl0_in v idx bytes)
tl0_in-IsSized v idx [] h = tt
tl0_in-IsSized v idx (b ∷ rest) h =
    read_tid-IsSized (record v { tl0_pic_idx = b }) (idx + 1) rest (omega arith)

read_tl0-IsSized :
    (v : Vp8) (idx : ℕ) (bytes : List ℕ)
    → IsSizedFrom v idx (flag v.l 1 + flag (v.t || v.k) 1)
    → Holds IsSized (read_tl0 v idx bytes)
read_tl0-IsSized v idx bytes h =
    pick IsSized v.l (tl0_in v idx bytes) (read_tid v idx bytes)
      (λ e. tl0_in-IsSized v idx bytes (omega (arith, flag-true e)))
      (λ e. read_tid-IsSized v idx bytes (omega (arith, flag-false e)))

id_size-short : (i : Bool) → id_size i false ≤ 1
id_size-short false = omega arith
id_size-short true = omega arith

id_size-long : (i : Bool) → id_size i true ≤ 2
id_size-long false = omega arith
id_size-long true = omega arith

long_id_in-IsSized : (v : Vp8) (pid : ℕ) (bytes : List ℕ) → Holds IsSized (long_id_in v 3 pid bytes)
long_id_in-IsSized v pid [] = tt
long_id_in-IsSized v pid (b ∷ rest) =
    read_tl0-IsSized (record v { m = true; picture_id = pid * 256 + b }) 4 rest
      (omega (arith, id_size-long v.i))

id_in-IsSized : (v : Vp8) (bytes : List ℕ) → Holds IsSized (id_in v 2 bytes)
id_in-IsSized v [] = tt
id_in-IsSized v (b ∷ rest) =
    let w : Vp8 = record v { m = false; picture_id = b % 128 } in
    pick IsSized (bit 128 b) (long_id_in v 3 (b % 128) rest) (read_tl0 w 3 rest)
      (λ e. long_id_in-IsSized v (b % 128) rest)
      (λ e. read_tl0-IsSized w 3 rest (omega (arith, id_size-short v.i)))

read_id-IsSized : (v : Vp8) (bytes : List ℕ) → Holds IsSized (read_id v 2 bytes)
read_id-IsSized v bytes =
    pick IsSized v.i (id_in v 2 bytes) (read_tl0 v 2 bytes) (λ e. id_in-IsSized v bytes)
      (λ e.
        read_tl0-IsSized v 2 bytes
          (let none : id_size v.i v.m ≡ 0 = rw e refl in omega (arith, none)))

extension_in-IsSized : (v : Vp8) (bytes : List ℕ) → Holds IsSized (extension_in v bytes)
extension_in-IsSized v [] = tt
extension_in-IsSized v (b ∷ rest) =
    let w : Vp8 = record v { i = bit 128 b; l = bit 64 b; t = bit 32 b; k = bit 16 b } in
    pick IsSized (bit 64 b && not (bit 32 b)) (err invalid_packet) (read_id w 2 rest) (λ e. tt)
      (λ e. read_id-IsSized w rest)

unmarshal_bytes-IsSized : (bytes : List ℕ) → Holds IsSized (unmarshal_bytes bytes)
unmarshal_bytes-IsSized [] = tt
unmarshal_bytes-IsSized (first ∷ rest) =
    let v = with_first first in
    pick IsSized (bit 128 first) (extension_in v rest) (finish v 1 rest)
      (λ e. extension_in-IsSized v rest) (λ e. plain first rest)
  where
    plain : (first : ℕ) (rest : List ℕ) → Holds IsSized (finish (with_first first) 1 rest)
    plain first [] = tt
    plain first (b ∷ rest) = omega arith

pub unmarshal-IsSized : (payload : Option (List ℕ)) (v : Vp8) → unmarshal payload ≡ ok v → IsSized v
unfolding unmarshal
unmarshal-IsSized none v e = absurd (ground arith)
unmarshal-IsSized (some bytes) v e = subst (Holds IsSized) e (unmarshal_bytes-IsSized bytes)
