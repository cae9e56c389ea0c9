-- ===== src/ApiKey/Laws.antt =====
-- What becomes of a raw key, and what the page asks of the API.
use slai.Base.{
  ◌≡◌, ◌≢◌, ◌⊎◌, refl, Bool, true, false, List, [], ◌∷◌, Option, none, some, if◌then◌else◌, All,
  inl, inr, if_split,
}
use slai.Text.{Str, trim, truthy, trim_start, trim_end, is_space}
use slai.Text.Trim.{IsTrimmed, trim-IsTrimmed}
use slai.Api.Errors.{Outcome, resolved, rejected, is_not_found}
use slai.ApiKey.{
  KeyStatus, active, suspended, revoked, can_create_over, PublicKey, Created, ConfirmAction, rotate,
  revoke, Page, Call, create_key, rotate_key, revoke_key, default_name, load, key_name, create,
  confirm, can_create, Event, loaded, typed_name, created, asked, cancelled, dismissed, confirmed,
  step,
}

-- What a confirmed action does to the raw key; `none` leaves the page's.
abbrev pub confirmed_key :
    Option ConfirmAction → Outcome Created → Outcome PublicKey → Option (Option Str)
confirmed_key (some rotate) (resolved r) revocation = some (some r.raw_api_key)
confirmed_key (some revoke) rotation (resolved k) = some none
confirmed_key _ _ _ = none

abbrev pub created_key : Bool → Outcome Created → Option (Option Str)
created_key true (resolved r) = some (some r.raw_api_key)
created_key _ _ = none

-- What an event does to the raw key: a key that is made replaces it, a revocation or a dismissal
-- removes it, and nothing else touches it.
abbrev pub new_raw_key : Page → Event → Option (Option Str)
new_raw_key s (created answer) = created_key (can_create s.api_key) answer
new_raw_key s (confirmed rotation revocation) = confirmed_key s.pending_confirm rotation revocation
new_raw_key s dismissed = some none
new_raw_key s _ = none

abbrev pub set_or_keep : Option (Option Str) → Option Str → Option Str
set_or_keep none raw = raw
set_or_keep (some key) raw = key

confirm-raw_key :
    (action : Option ConfirmAction) (s : Page) (rotation : Outcome Created)
    (revocation : Outcome PublicKey)
    → (confirm action s rotation revocation).0.raw_key
      ≡ set_or_keep (confirmed_key action rotation revocation) s.raw_key
unfolding confirm
confirm-raw_key none s rotation revocation = refl
confirm-raw_key (some rotate) s (resolved r) revocation = refl
confirm-raw_key (some rotate) s (rejected e) revocation = refl
confirm-raw_key (some revoke) s rotation (resolved k) = refl
confirm-raw_key (some revoke) s rotation (rejected e) = refl

create-raw_key :
    (s : Page) (b : Bool) (answer : Outcome Created)
    → (if b then create s answer else (s, [])).0.raw_key
      ≡ set_or_keep (created_key b answer) s.raw_key
unfolding create
create-raw_key s true (resolved r) = refl
create-raw_key s true (rejected e) = refl
create-raw_key s false (resolved r) = refl
create-raw_key s false (rejected e) = refl

load-raw_key : (s : Page) (answer : Outcome PublicKey) → (load s answer).raw_key ≡ s.raw_key
unfolding load
load-raw_key s (resolved k) = refl
load-raw_key s (rejected e) = if_split Kept (is_not_found e) (λ h. refl) (λ h. refl)
  where
    Kept : Page → Type 0
    Kept t = t.raw_key ≡ s.raw_key

-- In every state, an event does to the raw key what `new_raw_key` says: a key that is created or
-- rotated replaces it, a revocation or a dismissal removes it, and each other event, failures
-- included, leaves it.
pub step-raw_key :
    (s : Page) (e : Event) → (step s e).0.raw_key ≡ set_or_keep (new_raw_key s e) s.raw_key
unfolding step
step-raw_key s (loaded answer) = load-raw_key s answer
step-raw_key s (typed_name value) = refl
step-raw_key s (created answer) = create-raw_key s (can_create s.api_key) answer
step-raw_key s (asked action) = refl
step-raw_key s cancelled = refl
step-raw_key s dismissed = refl
step-raw_key s (confirmed rotation revocation) =
    confirm-raw_key s.pending_confirm s rotation revocation

-- There is no key, or it is revoked.
abbrev pub IsFree : Option PublicKey → Type 0
IsFree key = (key ≡ none) ⊎ ((k : PublicKey) × (key ≡ some k) × (k.status ≡ revoked))

can_create-IsFree : (key : Option PublicKey) → can_create key ≡ true → IsFree key
unfolding can_create
can_create-IsFree none h = inl refl
can_create-IsFree (some k) h = inr (k, refl, over k.status h)
  where
    over : (status : KeyStatus) → can_create_over status ≡ true → status ≡ revoked
    over revoked h = refl
    over active h = cc
    over suspended h = cc

-- A key is created only where there is none or a revoked one, under a name that is not empty and
-- has no white space around it; a key is rotated or revoked only after the question for it.
abbrev pub IsJustified : Page → Call → Type 0
IsJustified s (create_key name) = IsFree s.api_key × (name ≢ []) × IsTrimmed name
IsJustified s rotate_key = s.pending_confirm ≡ some rotate
IsJustified s revoke_key = s.pending_confirm ≡ some revoke

default-IsTrimmed : IsTrimmed default_name
unfolding trim_start trim_end is_space
default-IsTrimmed = (refl, refl)

key_name-plain : (name : Str) → (key_name name ≢ []) × IsTrimmed (key_name name)
unfolding key_name
key_name-plain name =
    if_split (λ (t : Str). (t ≢ []) × IsTrimmed t) (truthy (trim name))
      (λ e. (not_empty (trim name) e, trim-IsTrimmed name)) (λ e. (λ h. cc, default-IsTrimmed))
  where
    not_empty : (t : Str) → truthy t ≡ true → t ≢ []
    not_empty [] h k = cc
    not_empty (c ∷ t) h k = cc

confirm-IsJustified :
    (action : Option ConfirmAction) (s : Page) (rotation : Outcome Created)
    (revocation : Outcome PublicKey)
    → s.pending_confirm ≡ action
    → All (IsJustified s) (confirm action s rotation revocation).1
unfolding confirm
confirm-IsJustified none s rotation revocation h = tt
confirm-IsJustified (some rotate) s rotation revocation h = (h, tt)
confirm-IsJustified (some revoke) s rotation revocation h = (h, tt)

-- Each call that an event makes is justified: a key is created only where there is none or a
-- revoked one, under a trimmed name that is not empty; it is rotated or revoked only while that
-- very question is pending.
pub step-IsJustified : (s : Page) (e : Event) → All (IsJustified s) (step s e).1
unfolding step create
step-IsJustified s (loaded answer) = tt
step-IsJustified s (typed_name value) = tt
step-IsJustified s (created answer) =
    if_split Justified (can_create s.api_key)
      (λ h. let (a, b) = key_name-plain s.name in ((can_create-IsFree s.api_key h, a, b), tt))
      (λ h. tt)
  where
    Justified : Page × List Call → Type 0
    Justified r = All (IsJustified s) r.1
step-IsJustified s (asked action) = tt
step-IsJustified s cancelled = tt
step-IsJustified s dismissed = tt
step-IsJustified s (confirmed rotation revocation) =
    confirm-IsJustified s.pending_confirm s rotation revocation refl
