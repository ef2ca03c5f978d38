-- ===== src/Codec/Header.antt =====
-- The type word at the front of each message, and the header for the switch.
use fat_btree.Prelude.{ℕ, ◌/◌, ◌%◌, ◌^◌, ◌<◌, ◌≡◌, refl, sym, ap, ◌∙◌, List, [], ◌∷◌, ◌++◌, arith}
use fat_btree.Run.{ok}
use fat_btree.Codec.{
  le32, of_le32, htonl, put, inject_msg_type, inject_msg_type_pid, inject_fbt_hdr, get_bytes,
  extract_msg_type, extract_fbt_hdr,
}
use fat_btree.Codec.RoundTrip.{put_then}
use fat_btree.Codec.Words.{htonl-lt, htonl_involutive}

abbrev pub type_bytes : ℕ → ℕ → List ℕ
type_bytes msg_type pid = le32 (htonl (msg_type % 2 ^ 32)) ++ (pid ∷ [])

pub inject_msg_type_pid-put :
    (msg_type pid : ℕ) (out : List ℕ)
    → inject_msg_type_pid msg_type pid out ≡ put (type_bytes msg_type (pid % 256)) out
unfolding inject_msg_type_pid
inject_msg_type_pid-put msg_type pid out =
    put_then (le32 (htonl (msg_type % 2 ^ 32))) ((pid % 256) ∷ []) out (put ((pid % 256) ∷ []))
      (λ o h. refl)

inject_msg_type-put :
    (msg_type pid : ℕ) (out : List ℕ)
    → inject_msg_type msg_type pid out
      ≡ put (type_bytes msg_type (htonl (msg_type % 2 ^ 32) % 256)) out
unfolding inject_msg_type
inject_msg_type-put msg_type pid out =
    let top = (htonl (msg_type % 2 ^ 32) % 256) ∷ [] in
    put_then (le32 (htonl (msg_type % 2 ^ 32))) top out (put top) (λ o h. refl)

low_byte : (msg_type : ℕ) → msg_type < 2 ^ 24 → htonl (msg_type % 2 ^ 32) % 256 ≡ 0
unfolding htonl
low_byte msg_type small = omega arith

pub inject_msg_type-put_zero :
    (msg_type pid : ℕ) (out : List ℕ)
    → msg_type < 2 ^ 24
    → inject_msg_type msg_type pid out ≡ put (type_bytes msg_type 0) out
inject_msg_type-put_zero msg_type pid out small =
    inject_msg_type-put msg_type pid out
    ∙ ap (λ (b : ℕ). put (type_bytes msg_type b) out) (low_byte msg_type small)

-- For types below 2^24, as all of the program's are, the backend's inject_msg_type writes what the
-- frontend's writes for the partition 0, whatever partition it is given.
pub inject_msg_type-inject_msg_type_pid :
    (msg_type pid : ℕ) (out : List ℕ)
    → msg_type < 2 ^ 24
    → inject_msg_type msg_type pid out ≡ inject_msg_type_pid msg_type 0 out
inject_msg_type-inject_msg_type_pid msg_type pid out small =
    inject_msg_type-put_zero msg_type pid out small ∙ sym (inject_msg_type_pid-put msg_type 0 out)

pub same_word :
    (n : ℕ)
    → n < 2 ^ 32
    → of_le32 (n % 256) (n / 256 % 256) (n / 65536 % 256) (n / 16777216 % 256) ≡ n
same_word n h = omega arith

pub extract_msg_type-type_bytes :
    (msg_type pid : ℕ) (rest : List ℕ)
    → msg_type < 2 ^ 32
    → extract_msg_type (type_bytes msg_type pid ++ rest) ≡ ok msg_type rest
unfolding extract_msg_type get_bytes
extract_msg_type-type_bytes msg_type pid rest small =
    let t : msg_type % 2 ^ 32 ≡ msg_type = omega arith in
    ap (λ (n : ℕ). ok (htonl n) rest)
      (same_word (htonl (msg_type % 2 ^ 32)) (htonl-lt (msg_type % 2 ^ 32)))
    ∙ ap (λ (n : ℕ). ok (htonl (htonl n)) rest) t
    ∙ ap (λ (n : ℕ). ok n rest) (htonl_involutive msg_type small)

-- The bytes that the switch leaves in a request: the key, and the index of a node.
abbrev pub fbt_bytes : ℕ → ℕ → List ℕ
fbt_bytes fbt_key idx =
    le32 (htonl (fbt_key / 2 ^ 32 % 2 ^ 32))
    ++ (le32 (htonl (fbt_key % 2 ^ 32))
        ++ ((idx / 2 ^ 40 % 256)
            ∷ (idx / 2 ^ 32 % 256)
            ∷ (idx / 2 ^ 24 % 256)
            ∷ (idx / 2 ^ 16 % 256)
            ∷ (idx / 2 ^ 8 % 256)
            ∷ (idx % 256)
            ∷ []))

pub inject_fbt_hdr-put :
    (fbt_key : ℕ) (out : List ℕ) → inject_fbt_hdr fbt_key out ≡ put (fbt_bytes fbt_key 0) out
unfolding inject_fbt_hdr
inject_fbt_hdr-put fbt_key out =
    put_then (le32 (htonl (fbt_key / 2 ^ 32 % 2 ^ 32)))
      (le32 (htonl (fbt_key % 2 ^ 32)) ++ (0 ∷ 0 ∷ 0 ∷ 0 ∷ 0 ∷ 0 ∷ [])) out _
      λ o h.
        put_then (le32 (htonl (fbt_key % 2 ^ 32))) (0 ∷ 0 ∷ 0 ∷ 0 ∷ 0 ∷ 0 ∷ []) o _ λ o' h'. refl

-- Whatever key and index of 48 bits the switch leaves in the header, extract_fbt_hdr gives back the
-- index, and leaves what follows the header.
pub extract_fbt_hdr-fbt_bytes :
    (fbt_key idx : ℕ) (rest : List ℕ)
    → idx < 2 ^ 48
    → extract_fbt_hdr (fbt_bytes fbt_key idx ++ rest) ≡ ok idx rest
unfolding extract_fbt_hdr
extract_fbt_hdr-fbt_bytes fbt_key idx rest small = ground arith
