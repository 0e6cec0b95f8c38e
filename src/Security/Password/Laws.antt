-- ===== src/Security/Password/Laws.antt =====
-- A password is accepted under its own hash.
use Prim.Native.Nat.{bit_xor}
use proxy_control_plane.Base.{
  ℕ, zero, suc, ◌+◌, ◌-◌, ◌*◌, ◌/◌, ◌%◌, ◌^◌, ◌<◌, ◌≤◌, Text, codes, Bool, true, ◌&&◌, some, [],
  ◌∷◌, ◌++◌, ◌≡◌, refl, ap, ◌∙◌, All-append, length, length-append, take, str_eq, str_eq_refl,
  has_prefix, split, split-append, split-Lacks, Lacks, Lacks-of, ok, ltb, pos, is_space, arith,
}
use proxy_control_plane.Security.RawUrl.{hex_encode}
use proxy_control_plane.Security.RawUrl.Laws.{
  IsBytes, hex_decode-encode, hex_encode-IsUrlByte, Lacks-dollar,
}
use proxy_control_plane.Security.Password.{
  default_pbkdf2_iterations, xor_into, fold_rounds, big_endian, pbkdf2_block, pbkdf2_blocks,
  pbkdf2_key, stored_form, password_hash, is_digit, scan_digits, scan_number, scan_signed,
  sscanf_int, compare_digest, verify_stored, verify_password, scheme,
}

-- A byte `a` and the bytes below the bound have bytes for their exclusive or.
closed_row : ℕ → ℕ → Bool
closed_row a zero = true
closed_row a (suc b) = ltb (bit_xor a b) 256 && closed_row a b

closed_rows : ℕ → Bool
closed_rows zero = true
closed_rows (suc a) = closed_row a 256 && closed_rows a

row_sound : (a bound b : ℕ) → closed_row a bound ≡ true → b < bound → bit_xor a b < 256
unfolding closed_row
row_sound a (suc k) b h lt = ground (arith, row_sound a k b)
row_sound a zero b h lt = absurd (omega arith)

rows_sound : (bound a : ℕ) → closed_rows bound ≡ true → a < bound → closed_row a 256 ≡ true
unfolding closed_rows
rows_sound (suc k) a h lt = ground (arith, rows_sound k a)
rows_sound zero a h lt = absurd (omega arith)

every_row : closed_rows 256 ≡ true
unfolding closed_rows closed_row
every_row = refl

bit_xor-lt : (a b : ℕ) → a < 256 → b < 256 → bit_xor a b < 256
bit_xor-lt a b ha hb = row_sound a 256 b (rows_sound 256 a every_row ha) hb

xor_into-length : (t u : Text) → length (xor_into t u) ≡ length t
unfolding xor_into
xor_into-length [] u = refl
xor_into-length (a ∷ t) [] = refl
xor_into-length (a ∷ t) (b ∷ u) = ap suc (xor_into-length t u)

xor_into-IsBytes : (t u : Text) → IsBytes t → IsBytes u → IsBytes (xor_into t u)
unfolding xor_into
xor_into-IsBytes [] u ht hu = tt
xor_into-IsBytes (a ∷ t) [] ht hu = ht
xor_into-IsBytes (a ∷ t) (b ∷ u) ht hu = (bit_xor-lt a b ht.0 hu.0, xor_into-IsBytes t u ht.1 hu.1)

-- A text of the length of a sum.
abbrev pub IsSum : Text → Type 0
IsSum s = (length s ≡ 32) × IsBytes s

take-length_le : (n : ℕ) (s : Text) → n ≤ length s → length (take n s) ≡ n
take-length_le zero s h = refl
take-length_le (suc n) [] h = absurd (omega arith)
take-length_le (suc n) (c ∷ s) h = ap suc (take-length_le n s (omega arith))

take-IsBytes : (n : ℕ) (s : Text) → IsBytes s → IsBytes (take n s)
take-IsBytes zero s h = tt
take-IsBytes (suc n) [] h = tt
take-IsBytes (suc n) (c ∷ s) h = (h.0, take-IsBytes n s h.1)

module _ (prf : Text → Text → Text) (sums : (k d : Text) → IsSum (prf k d))
    (password salt : Text) where
  fold_rounds-IsSum :
      (rounds : ℕ) (u t : Text) → IsSum t → IsSum (fold_rounds prf password rounds u t)
  unfolding fold_rounds
  fold_rounds-IsSum zero u t h = h
  fold_rounds-IsSum (suc rounds) u t h =
      let next = prf password u in
      fold_rounds-IsSum rounds next (xor_into t next)
        (xor_into-length t next ∙ h.0, xor_into-IsBytes t next h.1 (sums password u).1)

  pbkdf2_block-IsSum : (iter block : ℕ) → IsSum (pbkdf2_block prf password salt iter block)
  unfolding pbkdf2_block
  pbkdf2_block-IsSum iter block =
      fold_rounds-IsSum (iter - 1) _ _ (sums password (salt ++ big_endian (block % 2 ^ 32)))

  pbkdf2_blocks-IsBlocks :
      (iter left block : ℕ)
      → (length (pbkdf2_blocks prf password salt iter left block) ≡ left * 32)
        × IsBytes (pbkdf2_blocks prf password salt iter left block)
  unfolding pbkdf2_blocks
  pbkdf2_blocks-IsBlocks iter zero block = (omega arith, tt)
  pbkdf2_blocks-IsBlocks iter (suc left) block =
      let one = pbkdf2_block-IsSum iter block in
      let more = pbkdf2_blocks-IsBlocks iter left (block + 1) in
      let b = pbkdf2_block prf password salt iter block in
      let bs = pbkdf2_blocks prf password salt iter left (block + 1) in
      (omega (arith, length-append b bs), All-append (λ c. c < 256) b bs one.1 more.1)

  -- With positive parameters the key has the length that is asked for, and is made of bytes.
  pub pbkdf2_key-IsKey :
      (iter key_len : ℕ)
      → 0 < iter
      → 0 < key_len
      → (key : Text) × (pbkdf2_key prf password salt (pos iter) key_len ≡ some key)
        × (length key ≡ key_len)
        × IsBytes key
  unfolding pbkdf2_key
  pbkdf2_key-IsKey iter key_len hi hk =
      let n = (key_len + 32 - 1) / 32 in
      let bs = pbkdf2_blocks prf password salt iter n 1 in
      let all = pbkdf2_blocks-IsBlocks iter n 1 in
      (
        take key_len bs,
        ground arith,
        take-length_le key_len bs (omega arith),
        take-IsBytes key_len bs all.1,
      )

iterations_scan : sscanf_int (codes "260000") ≡ some (pos default_pbkdf2_iterations)
unfolding sscanf_int is_space scan_signed scan_number scan_digits is_digit
iterations_scan = refl

scheme_prefix : (salt digest : Text) → has_prefix (stored_form salt digest) scheme ≡ true
unfolding str_eq stored_form
scheme_prefix salt digest = refl

module _ (prf : Text → Text → Text) (password salt digest : Text)
    (derived : pbkdf2_key prf password salt (pos default_pbkdf2_iterations) 32 ≡ some digest)
    (long : length digest ≡ 32) (bytes : IsBytes digest) (plain : Lacks b'$' salt) where
  compare_own :
      compare_digest prf password salt (pos default_pbkdf2_iterations) (some digest) ≡ some true
  unfolding compare_digest
  compare_own = rw (compare_digest, long, derived, str_eq_refl digest) refl

  stored_split :
      split b'$' (stored_form salt digest)
      ≡ codes "pbkdf2_sha256" ∷ codes "260000" ∷ salt ∷ hex_encode digest ∷ []
  unfolding stored_form
  stored_split =
      let hex = hex_encode digest in
      split-append b'$' (codes "pbkdf2_sha256") (codes "260000" ++ (b'$' ∷ (salt ++ (b'$' ∷ hex))))
        (Lacks-of b'$' (codes "pbkdf2_sha256") refl)
      ∙ ap (λ ps. codes "pbkdf2_sha256" ∷ ps)
          (split-append b'$' (codes "260000") (salt ++ (b'$' ∷ hex))
              (Lacks-of b'$' (codes "260000") refl)
            ∙ ap (λ ps. codes "260000" ∷ ps)
                (split-append b'$' salt hex plain
                  ∙ ap (λ ps. salt ∷ ps)
                      (split-Lacks b'$' hex
                        (Lacks-dollar hex (hex_encode-IsUrlByte digest bytes)))))

  parts_own :
      verify_stored prf password
        (codes "pbkdf2_sha256" ∷ codes "260000" ∷ salt ∷ hex_encode digest ∷ [])
      ≡ some true
  unfolding verify_stored
  parts_own = rw (verify_stored, iterations_scan, hex_decode-encode digest bytes) compare_own

  verify_own : verify_password prf password (stored_form salt digest) ≡ some true
  unfolding verify_password
  verify_own =
      rw (verify_password, scheme_prefix salt digest)
        (ap (verify_stored prf password) stored_split ∙ parts_own)

-- Whatever the password, hashing it with a salt without a dollar sign returns a text, and the password
-- is accepted under that text.
pub verify-hash :
    (prf : Text → Text → Text) (salt password : Text)
    → ((k d : Text) → IsSum (prf k d))
    → Lacks b'$' salt
    → (stored : Text) × (password_hash prf (ok salt) password ≡ some (ok stored))
      × (verify_password prf password stored ≡ some true)
unfolding password_hash
verify-hash prf salt password sums plain =
    let (digest, derived, long, bytes) =
      pbkdf2_key-IsKey prf sums password salt default_pbkdf2_iterations 32 (omega arith)
        (omega arith) in
    (
      stored_form salt digest,
      rw (password_hash, derived) refl,
      verify_own prf password salt digest derived long bytes plain,
    )
