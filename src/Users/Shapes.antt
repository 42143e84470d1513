-- ===== src/Users/Shapes.antt =====
-- The validators of internal/users/model.go beside the tables' CHECK constraints.
use mathlib.Core.Logic.{◌↔◌}
use billiards_online.Base.{
  byte_len, ◌≤◌, ◌≡◌, refl, Bool, true, false, [], ◌∷◌, Text, arith, ltb, length, ok, any, ℕ,
}
use billiards_online.Users.Model.{
  email_re, domain_re, validate_email, validate_handle, handle_re, all_word, word_char,
}
use billiards_online.Users.Statements.{
  dot_later, domain_shape, at_later, email_shape, handle_char, handle_chars, handle_shape,
}

length-le-byte_len : (s : Text) → length s ≤ byte_len s
unfolding byte_len
length-le-byte_len [] = omega arith
length-le-byte_len (c ∷ cs) = ground (arith, length-le-byte_len cs)

domain_re-nonempty :
    (dotted : Bool) (cs : Text) → domain_re false dotted cs ≡ true → ltb 0 (length cs) ≡ true
unfolding domain_re
domain_re-nonempty dotted [] h = ground arith
domain_re-nonempty dotted (c ∷ cs) h = ground arith

domain_re-dot : (cs : Text) → domain_re true false cs ≡ true → dot_later cs ≡ true
unfolding domain_re dot_later
domain_re-dot [] h = ground arith
domain_re-dot (c ∷ cs) h = ground (arith, domain_re-dot cs, domain_re-nonempty true cs)

domain_re-shape : (cs : Text) → domain_re false false cs ≡ true → domain_shape cs ≡ true
unfolding domain_re domain_shape
domain_re-shape [] h = ground arith
domain_re-shape (c ∷ cs) h = ground (arith, domain_re-dot cs)

email_re-at : (cs : Text) → email_re true cs ≡ true → at_later cs ≡ true
unfolding email_re at_later
email_re-at [] h = ground arith
email_re-at (c ∷ cs) h = ground (arith, email_re-at cs, domain_re-shape cs)

-- An address that the validator accepts satisfies the table's CHECK on its shape and length.
pub validate_email-shape : (e : Text) → validate_email e ≡ ok tt → email_shape e ≡ true
unfolding validate_email email_re email_shape
validate_email-shape [] h = ground arith
validate_email-shape (c ∷ cs) h =
    ground (arith, email_re-at cs, domain_re-shape cs, length-le-byte_len (c ∷ cs))

-- The two alphabets, each written out where it stands.
handle_char-word_char : (c : ℕ) → handle_char c ≡ word_char c
unfolding handle_char any
handle_char-word_char c = ground arith

handle_chars-handle_re : (s : Text) → handle_chars s ≡ handle_re s
unfolding handle_chars handle_re all_word
handle_chars-handle_re [] = refl
handle_chars-handle_re (c ∷ []) = ground (arith, handle_char-word_char c)
handle_chars-handle_re (c ∷ d ∷ cs) =
    ground (arith, handle_char-word_char c, handle_chars-handle_re (d ∷ cs))

byte_len-ascii : (s : Text) → all_word s ≡ true → byte_len s ≡ length s
unfolding byte_len all_word
byte_len-ascii [] h = refl
byte_len-ascii (c ∷ cs) h = ground (arith, byte_len-ascii cs)

-- The validator of handles, with its length in bytes, and the table's CHECKs, with theirs in
-- characters, accept the same handles.
pub validate_handle-shape : (h : Text) → (validate_handle h ≡ ok tt) ↔ (handle_shape h ≡ true)
unfolding validate_handle handle_re handle_shape all_word
validate_handle-shape [] = ground (arith, handle_chars-handle_re [])
validate_handle-shape (c ∷ cs) =
    ground (arith, byte_len-ascii (c ∷ cs), handle_chars-handle_re (c ∷ cs))
