-- ===== src/Users/Model.antt =====
-- internal/users/model.go: accounts, profiles, and the checks on what a player may be called.
-- A string is its list of code points; what Go's `len` counts is its UTF-8 bytes.
use billiards_online.Base.{
  ℕ, Bool, true, false, not, ◌&&◌, ◌||◌, Option, none, some, [], ◌∷◌, Text, ltb, leb, ◌==◌,
  if◌then◌else◌, trim_space, to_lower, byte_len, Result, ok, err,
}

pub record User : Type 0 where
  pub id : ℕ
  pub email : Text
  pub handle : Text
  pub created_at : ℕ
  pub updated_at : ℕ

-- `Public`: what is shown of a user, the address excepted
pub record Public : Type 0 where
  pub id : ℕ
  pub handle : Text
  pub created_at : ℕ

unfoldable pub public_user : User → Public
public_user u = record { id = u.id; handle = u.handle; created_at = u.created_at }

pub record Profile : Type 0 where
  pub user_id : ℕ
  pub display_name : Option Text
  pub avatar_ref : Option Text
  pub matches_played : ℕ
  pub wins : ℕ
  pub losses : ℕ
  pub updated_at : ℕ

pub record Account : Type 0 where
  pub user : User
  pub profile : Profile

unfoldable pub display_name : Account → Text
display_name a = elim a.profile.display_name [ none ↦ a.user.handle | some name ↦ name ]

pub record PublicProfile : Type 0 where
  pub id : ℕ
  pub handle : Text
  pub display_name : Text
  pub avatar_ref : Option Text
  pub matches_played : ℕ
  pub wins : ℕ
  pub losses : ℕ
  pub created_at : ℕ

unfoldable pub public : Account → PublicProfile
unfolding display_name
public a = record {
  id = a.user.id;
  handle = a.user.handle;
  display_name = display_name a;
  avatar_ref = a.profile.avatar_ref;
  matches_played = a.profile.matches_played;
  wins = a.profile.wins;
  losses = a.profile.losses;
  created_at = a.user.created_at;
}

pub record UpdateProfileInput : Type 0 where
  pub display_name : Option Text
  pub avatar_ref : Option Text

-- The errors that this package names, and `internal` for any other, wrapped one.
pub data Error : Type 0 where
  not_found email_taken handle_taken invalid_email invalid_handle : Error
  invalid_display invalid_avatar internal : Error

abbrev pub min_handle_len : ℕ
min_handle_len = 3

abbrev pub max_handle_len : ℕ
max_handle_len = 24

abbrev pub max_email_len : ℕ
max_email_len = 254

abbrev pub min_display_name_len : ℕ
min_display_name_len = 1

abbrev pub max_display_name_len : ℕ
max_display_name_len = 40

abbrev pub max_avatar_ref_len : ℕ
max_avatar_ref_len = 512

-- RE2's \s
abbrev pub re_space : ℕ → Bool
re_space c = (c == 9) || (c == 10) || (c == 12) || (c == 13) || (c == 32)

-- `emailRe` behind the @: is the label begun, and was there a dot?
unfoldable pub domain_re : Bool → Bool → Text → Bool
domain_re begun dotted [] = begun && dotted
domain_re begun dotted (c ∷ cs) =
    let first_label = domain_re false true cs in
    let same_label = domain_re true dotted cs in
    if (c == b'@') || re_space c
    then false
    else if c == b'.'
    then begun && first_label
    else same_label

-- `emailRe`: was there a character before the @?
unfoldable pub email_re : Bool → Text → Bool
unfolding domain_re
email_re begun [] = false
email_re begun (c ∷ cs) =
    let later = email_re true cs in
    if c == b'@' then begun && domain_re false false cs else if re_space c then false else later

abbrev pub word_char : ℕ → Bool
word_char c =
    (leb b'A' c && leb c b'Z')
    || (leb b'a' c && leb c b'z')
    || (leb b'0' c && leb c b'9')
    || (c == b'_')

unfoldable pub all_word : Text → Bool
all_word [] = true
all_word (c ∷ cs) = word_char c && all_word cs

-- `handleRe`
unfoldable pub handle_re : Text → Bool
unfolding all_word
handle_re [] = false
handle_re (c ∷ cs) = all_word (c ∷ cs)

unfoldable pub normalize_email : (ℕ → ℕ) → Text → Text
normalize_email lower email = to_lower lower (trim_space email)

abbrev pub Checked : Type 0 → Type 0
Checked = Result Error

unfoldable pub validate_email : Text → Checked (Unit {0})
unfolding byte_len email_re
validate_email email =
    if (byte_len email == 0) || (ltb max_email_len (byte_len email) || not (email_re false email))
    then err invalid_email
    else ok tt

unfoldable pub validate_handle : Text → Checked (Unit {0})
unfolding byte_len handle_re
validate_handle handle =
    if ltb (byte_len handle) min_handle_len
      || (ltb max_handle_len (byte_len handle) || not (handle_re handle))
    then err invalid_handle
    else ok tt

unfoldable pub validate_display_name : Text → Checked (Unit {0})
unfolding byte_len
validate_display_name name =
    if ltb (byte_len name) min_display_name_len || ltb max_display_name_len (byte_len name)
    then err invalid_display
    else ok tt

unfoldable pub validate_avatar_ref : Text → Checked (Unit {0})
unfolding byte_len
validate_avatar_ref ref =
    if (byte_len ref == 0) || ltb max_avatar_ref_len (byte_len ref)
    then err invalid_avatar
    else ok tt
