-- ===== src/Api/Endpoints.antt =====
-- The endpoints of apps/web/src/lib/api.ts: `buildUrl`, `toQuery` and the table `api`, with one
-- constructor for each of its functions.
pub mod Laws
use slai.Base.{
  Bool, true, false, not, ◌||◌, List, [], ◌∷◌, ◌++◌, Option, none, some, String, if◌then◌else◌,
  codes,
}
use slai.Text.{Str, truthy, starts_with}

unfoldable pub build_url : Str → Str
build_url path =
    if starts_with (codes "http://") path || starts_with (codes "https://") path
    then path
    else codes "/api/slai" ++ (if starts_with (codes "/") path then path else codes "/" ++ path)

-- A query parameter: its name, and its value as text unless it is undefined.
abbrev pub Params : Type 0
Params = List (Str × Option Str)

-- `value !== undefined && value !== ""`
unfoldable pub present : Params → List (Str × Str)
present [] = []
present ((key, none) ∷ params) = present params
present ((key, some []) ∷ params) = present params
present ((key, some (c ∷ value)) ∷ params) = (key, c ∷ value) ∷ present params

-- `form` is `URLSearchParams.toString` of parameters with distinct names.
unfoldable pub to_query : (form : List (Str × Str) → Str) → Params → Str
unfolding present
to_query form params =
    let query = form (present params) in if truthy query then codes "?" ++ query else []

-- `J` is a JSON object that a caller has prepared: the inputs of packages, top-ups and adjustments,
-- scaled to credit units, and the payment settings. Uploaded forms are left out.
pub data Endpoint (J : Type 0) : Type 0 where
  signup login : (email password : Str) → Endpoint J
  verify_signup : (email otp : Str) → Endpoint J
  request_password_reset : (email : Str) → Endpoint J
  confirm_password_reset : (email otp password : Str) → Endpoint J
  google : (credential : Str) → Endpoint J
  logout me : Endpoint J
  change_password : (current_password new_password : Str) → Endpoint J
  list_public_packages get_balance : Endpoint J
  list_ledger list_payments : Params → Endpoint J
  get_payment refresh_payment upload_proof proof_url : (id : Str) → Endpoint J
  checkout_package : (package_id : Str) → Endpoint J
  checkout_settings : Endpoint J
  list_usage : Params → Endpoint J
  get_api_key rotate_api_key revoke_api_key : Endpoint J
  create_api_key : (name : Str) → Endpoint J
  admin_dashboard : Endpoint J
  admin_users : Params → Endpoint J
  admin_user : (user_id : Str) → Endpoint J
  update_user_status : (user_id status : Str) → Endpoint J
  admin_audit_logs : Params → Endpoint J
  admin_packages : Endpoint J
  create_package : J → Endpoint J
  update_package : (id : Str) → J → Endpoint J
  admin_payments : Params → Endpoint J
  admin_payment admin_proof_url : (id : Str) → Endpoint J
  approve_payment : (id payment_reference : Str) (note : Option Str) → Endpoint J
  reject_payment : (id reason : Str) → Endpoint J
  manual_top_up : J → Endpoint J
  payment_settings upload_khqr_image provider_status khqr_image_url : Endpoint J
  update_payment_settings : J → Endpoint J
  ledger_adjustment : J → Endpoint J
  user_api_key suspend_user_key resume_user_key revoke_user_key : (user_id : Str) → Endpoint J
  admin_usage : Params → Endpoint J
  sync_usage sync_status : Endpoint J

pub data Method : Type 0 where
  get post patch delete : Method

pub data Body (J : Type 0) : Type 0 where
  no_body : Body J
  fields : List (String × Option Str) → Body J
  input : J → Body J
  form_data : Body J

abbrev text_field : String → Str → String × Option Str
text_field name value = (name, some value)

module _ {J : Type 0} where
  -- GET unless the table says otherwise; `apiUpload` posts.
  unfoldable pub method : Endpoint J → Method
  method (signup _ _) = post
  method (verify_signup _ _) = post
  method (request_password_reset _) = post
  method (confirm_password_reset _ _ _) = post
  method (login _ _) = post
  method (google _) = post
  method logout = post
  method (change_password _ _) = post
  method (refresh_payment _) = post
  method (upload_proof _) = post
  method (checkout_package _) = post
  method (create_api_key _) = post
  method rotate_api_key = post
  method revoke_api_key = delete
  method (update_user_status _ _) = patch
  method (create_package _) = post
  method (update_package _ _) = patch
  method (approve_payment _ _ _) = post
  method (reject_payment _ _) = post
  method (manual_top_up _) = post
  method (update_payment_settings _) = patch
  method upload_khqr_image = post
  method (ledger_adjustment _) = post
  method (suspend_user_key _) = post
  method (resume_user_key _) = post
  method (revoke_user_key _) = post
  method sync_usage = post
  method _ = get

  unfoldable pub body : Endpoint J → Body J
  body (signup email password) =
      fields (text_field "email" email ∷ text_field "password" password ∷ [])
  body (verify_signup email otp) = fields (text_field "email" email ∷ text_field "otp" otp ∷ [])
  body (request_password_reset email) = fields (text_field "email" email ∷ [])
  body (confirm_password_reset email otp password) =
      fields (text_field "email" email ∷ text_field "otp" otp ∷ text_field "password" password ∷ [])
  body (login email password) =
      fields (text_field "email" email ∷ text_field "password" password ∷ [])
  body (google credential) = fields (text_field "credential" credential ∷ [])
  body (change_password current_password new_password) =
      fields
        (text_field "currentPassword" current_password ∷ text_field "newPassword" new_password ∷ [])
  body (create_api_key name) = fields (text_field "name" name ∷ [])
  body (update_user_status _ status) = fields (text_field "status" status ∷ [])
  body (approve_payment _ payment_reference note) =
      fields (text_field "payment_reference" payment_reference ∷ ("note", note) ∷ [])
  body (reject_payment _ reason) = fields (text_field "reason" reason ∷ [])
  body (create_package j) = input j
  body (update_package _ j) = input j
  body (manual_top_up j) = input j
  body (update_payment_settings j) = input j
  body (ledger_adjustment j) = input j
  body (upload_proof _) = form_data
  body upload_khqr_image = form_data
  body _ = no_body

  -- The path that is given to `buildUrl`.
  unfoldable pub path : (form : List (Str × Str) → Str) → Endpoint J → Str
  unfolding to_query
  path form (signup _ _) = codes "/v1/auth/signup"
  path form (verify_signup _ _) = codes "/v1/auth/signup/verify"
  path form (request_password_reset _) = codes "/v1/auth/password-reset/request"
  path form (confirm_password_reset _ _ _) = codes "/v1/auth/password-reset/confirm"
  path form (login _ _) = codes "/v1/auth/login"
  path form (google _) = codes "/v1/auth/google"
  path form logout = codes "/v1/auth/logout"
  path form me = codes "/v1/me"
  path form (change_password _ _) = codes "/v1/me/password"
  path form list_public_packages = codes "/v1/packages"
  path form get_balance = codes "/v1/balance"
  path form (list_ledger params) = codes "/v1/ledger" ++ to_query form params
  path form (list_payments params) = codes "/v1/payments" ++ to_query form params
  path form (get_payment id) = codes "/v1/payments/" ++ id
  path form (refresh_payment id) = codes "/v1/payments/" ++ id ++ codes "/refresh"
  path form (proof_url id) = codes "/v1/payments/" ++ id ++ codes "/proof"
  path form (upload_proof id) = codes "/v1/payments/" ++ id ++ codes "/proof"
  path form (checkout_package package_id) = codes "/v1/checkout/package/" ++ package_id
  path form checkout_settings = codes "/v1/payment-settings/bakong-khqr"
  path form (list_usage params) = codes "/v1/usage" ++ to_query form params
  path form get_api_key = codes "/v1/api-key"
  path form (create_api_key _) = codes "/v1/api-key"
  path form rotate_api_key = codes "/v1/api-key/rotate"
  path form revoke_api_key = codes "/v1/api-key"
  path form admin_dashboard = codes "/v1/admin/dashboard"
  path form (admin_users params) = codes "/v1/admin/users" ++ to_query form params
  path form (admin_user user_id) = codes "/v1/admin/users/" ++ user_id
  path form (update_user_status user_id _) = codes "/v1/admin/users/" ++ user_id ++ codes "/status"
  path form (admin_audit_logs params) = codes "/v1/admin/audit-logs" ++ to_query form params
  path form admin_packages = codes "/v1/admin/packages"
  path form (create_package _) = codes "/v1/admin/packages"
  path form (update_package id _) = codes "/v1/admin/packages/" ++ id
  path form (admin_payments params) = codes "/v1/admin/payments" ++ to_query form params
  path form (admin_payment id) = codes "/v1/admin/payments/" ++ id
  path form (admin_proof_url id) = codes "/v1/admin/payments/" ++ id ++ codes "/proof"
  path form (approve_payment id _ _) = codes "/v1/admin/payments/" ++ id ++ codes "/approve"
  path form (reject_payment id _) = codes "/v1/admin/payments/" ++ id ++ codes "/reject"
  path form (manual_top_up _) = codes "/v1/admin/payments/manual-topup"
  path form payment_settings = codes "/v1/admin/payment-settings/bakong-khqr"
  path form (update_payment_settings _) = codes "/v1/admin/payment-settings/bakong-khqr"
  path form upload_khqr_image = codes "/v1/admin/payment-settings/bakong-khqr/khqr-image"
  path form provider_status = codes "/v1/admin/payment-settings/bakong-khqr/provider-status"
  path form khqr_image_url = codes "/v1/payment-settings/bakong-khqr/khqr-image"
  path form (ledger_adjustment _) = codes "/v1/admin/ledger/adjustments"
  path form (user_api_key user_id) = codes "/v1/admin/users/" ++ user_id ++ codes "/api-key"
  path form (suspend_user_key user_id) =
      codes "/v1/admin/users/" ++ user_id ++ codes "/api-key/suspend"
  path form (resume_user_key user_id) =
      codes "/v1/admin/users/" ++ user_id ++ codes "/api-key/resume"
  path form (revoke_user_key user_id) =
      codes "/v1/admin/users/" ++ user_id ++ codes "/api-key/revoke"
  path form (admin_usage params) = codes "/v1/admin/usage" ++ to_query form params
  path form sync_usage = codes "/v1/admin/usage/sync"
  path form sync_status = codes "/v1/admin/usage/sync-status"
