-- ===== src/Auth/Laws.antt =====
-- What the checks of the forms accept.
use slai.Base.{
  ℕ, zero, suc, ◌≤◌, ◌≡◌, ◌≢◌, ◌↔◌, refl, true, [], ◌∷◌, ◌++◌, none, String, length, take, all,
  arith, &&-true, ==_iff,
}
use slai.Text.{Str, trim, truthy, is_digit}
use slai.Text.Trim.{trim_of_plain}
use slai.Text.Decimal.Laws.{digits-is_plain}
use slai.Text.Regex.{test}
use slai.Text.Regex.Semantics.{test_iff, Lang, Lang-plus_unit_iff, Lang-times_unit_iff}
use slai.Text.Equality.{equals_iff}
use slai.Auth.{
  is_word, email_regex, looks_like_email, otp_regex, email_error, validate_otp, validate_signup,
  new_password_error, is_clear, validate_password_change, is_accepted, digits_only, otp_input,
}

abbrev pub IsWord : Str → Type 0
IsWord s = (s ≢ []) × (all is_word s ≡ true)

-- A local part, an @, and a domain with a point inside, with no white space and no other @.
pub record IsEmail (s : Str) : Type 0 where
  pub local : Str
  pub domain : Str
  pub top : Str
  pub local_word : IsWord local
  pub domain_word : IsWord domain
  pub top_word : IsWord top
  pub shape : s ≡ local ++ b'@' ∷ (domain ++ b'.' ∷ top)

Lang→IsEmail : (s : Str) → Lang email_regex s → IsEmail s
Lang→IsEmail s
      (a, b, e, ha, (x, y, ey, (c, isat, ex), (p, q, eq, hp, (u, v, ev, (d, isdot, eu), hv)))) =
    record {
      local = a;
      domain = p;
      top = v;
      local_word = (Lang-plus_unit_iff is_word a).0 ha;
      domain_word = (Lang-plus_unit_iff is_word p).0 hp;
      top_word = (Lang-plus_unit_iff is_word v).0 hv;
      shape = rw (e, ey, ex, eq, ev, eu, (==_iff c b'@').0 isat, (==_iff d b'.').0 isdot) refl;
    }

IsEmail→Lang : (s : Str) → IsEmail s → Lang email_regex s
IsEmail→Lang s h = (
  h.local,
  b'@' ∷ (h.domain ++ b'.' ∷ h.top),
  h.shape,
  (Lang-plus_unit_iff is_word h.local).1 h.local_word,
  (
    b'@' ∷ [],
    h.domain ++ b'.' ∷ h.top,
    refl,
    (b'@', refl, refl),
    (
      h.domain,
      b'.' ∷ h.top,
      refl,
      (Lang-plus_unit_iff is_word h.domain).1 h.domain_word,
      (b'.' ∷ [], h.top, refl, (b'.', refl, refl), (Lang-plus_unit_iff is_word h.top).1 h.top_word),
    ),
  ),
)

-- The e-mail pattern accepts exactly what is, once trimmed, local@domain.top.
pub looks_like_email_iff : (value : Str) → (looks_like_email value ≡ true) ↔ IsEmail (trim value)
unfolding looks_like_email
looks_like_email_iff value = (
  λ h. Lang→IsEmail (trim value) ((test_iff email_regex (trim value)).0 h),
  λ h. (test_iff email_regex (trim value)).1 (IsEmail→Lang (trim value) h),
)

truthy_iff : (s : Str) → (truthy s ≡ true) ↔ (s ≢ [])
truthy_iff [] = (λ h. cc, λ h. absurd (h refl))
truthy_iff (c ∷ s) = (λ _ h. cc, λ _. refl)

test-otp_iff : (s : Str) → (test otp_regex s ≡ true) ↔ ((length s ≡ 6) × (all is_digit s ≡ true))
test-otp_iff s = (
  λ h. (Lang-times_unit_iff is_digit 6 s).0 ((test_iff otp_regex s).0 h),
  λ h. (test_iff otp_regex s).1 ((Lang-times_unit_iff is_digit 6 s).1 h),
)

truthy_of_length : (s : Str) (n : ℕ) → length s ≡ suc n → truthy s ≡ true
truthy_of_length [] n h = absurd (omega arith)
truthy_of_length (c ∷ s) n h = refl

-- A code is accepted exactly if it is six digits, white space around them aside.
pub validate_otp_iff :
    (required : String) (otp : Str)
    → (validate_otp required otp ≡ none)
      ↔ ((length (trim otp) ≡ 6) × (all is_digit (trim otp) ≡ true))
unfolding validate_otp
validate_otp_iff required otp = (
  λ h. (test-otp_iff (trim otp)).0 (ground arith),
  λ h. rw (truthy_of_length (trim otp) 5 h.0, (test-otp_iff (trim otp)).1 h),
)

truthy-append : (s t : Str) (c : ℕ) → truthy (s ++ c ∷ t) ≡ true
truthy-append [] t c = refl
truthy-append (x ∷ s) t c = refl

email_error-inv : (email : Str) → email_error email ≡ none → looks_like_email email ≡ true
unfolding email_error
email_error-inv email h = ground arith

email_error-none :
    (email : Str)
    → truthy (trim email) ≡ true
    → looks_like_email email ≡ true
    → email_error email ≡ none
unfolding email_error
email_error-none email h k = rw (h, k)

email_error_iff : (email : Str) → (email_error email ≡ none) ↔ IsEmail (trim email)
email_error_iff email = (
  λ h. (looks_like_email_iff email).0 (email_error-inv email h),
  λ h.
      email_error-none email (rw h.shape (truthy-append h.local (h.domain ++ b'.' ∷ h.top) b'@'))
        ((looks_like_email_iff email).1 h),
)

new_password_iff :
    (required : String) (password : Str)
    → (new_password_error required password ≡ none) ↔ (8 ≤ length password)
unfolding new_password_error
new_password_iff required [] = (λ h. cc, λ h. absurd (omega arith))
new_password_iff required (c ∷ s) = (λ h. ground arith, λ h. ground arith)

signup-clear_iff :
    (email password : Str)
    → (is_clear (validate_signup email password) ≡ true)
      ↔ ((email_error email ≡ none) × (new_password_error "Password is required." password ≡ none))
unfolding is_clear validate_signup
signup-clear_iff email password = (λ h. ground arith, λ h. ground arith)

-- Sign-up takes exactly an e-mail address and a password of at least eight code units.
pub validate_signup_iff :
    (email password : Str)
    → (is_clear (validate_signup email password) ≡ true)
      ↔ (IsEmail (trim email) × (8 ≤ length password))
validate_signup_iff email password = (
  λ h.
      let (e, p) = (signup-clear_iff email password).0 h in
      ((email_error_iff email).0 e, (new_password_iff _ password).0 p),
  λ h.
      (signup-clear_iff email password).1
        ((email_error_iff email).1 h.0, (new_password_iff _ password).1 h.1),
)

truthy_of_long : (s : Str) → 8 ≤ length s → truthy s ≡ true
truthy_of_long [] h = absurd (omega arith)
truthy_of_long (c ∷ s) h = refl

truthy_of_ne : (s : Str) → s ≢ [] → truthy s ≡ true
truthy_of_ne s h = (truthy_iff s).1 h

-- A password change is sent exactly if there is a current password, the new one has at least eight
-- code units and differs from it, and the confirmation repeats the new one.
pub validate_password_change_iff :
    (current new confirm : Str)
    → (is_accepted (validate_password_change current new confirm) ≡ true)
      ↔ ((current ≢ []) × (8 ≤ length new) × (new ≢ current) × (confirm ≡ new))
unfolding is_accepted validate_password_change
validate_password_change_iff current new confirm = (to, from)
  where
    to :
        is_accepted (validate_password_change current new confirm) ≡ true
        → (current ≢ []) × (8 ≤ length new) × (new ≢ current) × (confirm ≡ new)
    to h =
        ground (
          arith,
          truthy_iff current,
          truthy_iff new,
          equals_iff new current,
          equals_iff new confirm,
        )

    from :
        (current ≢ []) × (8 ≤ length new) × (new ≢ current) × (confirm ≡ new)
        → is_accepted (validate_password_change current new confirm) ≡ true
    from h = ground (
      arith,
      truthy_of_ne current h.0,
      truthy_of_long new,
      truthy_of_long confirm,
      equals_iff new current,
      equals_iff new confirm,
    )

digits_only-all : (s : Str) → all is_digit (digits_only s) ≡ true
unfolding digits_only
digits_only-all [] = refl
digits_only-all (c ∷ s) = ground (arith, digits_only-all s)

all-take : (n : ℕ) (s : Str) → all is_digit s ≡ true → all is_digit (take n s) ≡ true
all-take zero s h = refl
all-take (suc n) [] h = refl
all-take (suc n) (c ∷ s) h =
    let (hc, hs) = &&-true (is_digit c) (all is_digit s) h in rw hc (all-take n s hs)

length-take-le : (n : ℕ) (s : Str) → length (take n s) ≤ n
length-take-le zero s = omega arith
length-take-le (suc n) [] = omega arith
length-take-le (suc n) (c ∷ s) = omega (arith, length-take-le n s)

pub otp_input-all : (value : Str) → all is_digit (otp_input value) ≡ true
unfolding otp_input
otp_input-all value = all-take 6 (digits_only value) (digits_only-all value)

pub otp_input-le : (value : Str) → length (otp_input value) ≤ 6
unfolding otp_input
otp_input-le value = length-take-le 6 (digits_only value)

-- Whatever is typed or pasted, the code field holds at most six digits, and it passes the check
-- exactly if it holds six.
otp_input-valid :
    (required : String) (value : Str)
    → (length (otp_input value) ≤ 6)
      × ((validate_otp required (otp_input value) ≡ none) ↔ (length (otp_input value) ≡ 6))
otp_input-valid required value =
    let digits = otp_input-all value in
    let same : trim (otp_input value) ≡ otp_input value =
      trim_of_plain _ (digits-is_plain _ digits) in
    (
      otp_input-le value,
      (
        λ h. rw same at ((validate_otp_iff required (otp_input value)).0 h).0,
        λ h. (validate_otp_iff required (otp_input value)).1 (rw same (h, digits)),
      ),
    )
