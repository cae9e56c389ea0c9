-- ===== src/Overview/Laws.antt =====
-- Which answers a customer's overview needs.
use slai.Base.{◌≡◌, ◌⊎◌, inl, inr, refl, true, false, Option, none, some, Bool-cases}
use slai.Api.Errors.{Failure, Outcome, resolved, rejected, readable_error, is_not_found}
use slai.ApiKey.{PublicKey}
use slai.Overview.{Data, Page, load}

-- The key of an answer, if it is a key or says that there is none.
abbrev pub IsKey : Outcome PublicKey → Option PublicKey → Type 0
IsKey answer key =
    ((k : PublicKey) × (answer ≡ resolved k) × (key ≡ some k))
    ⊎ ((e : Failure) × (answer ≡ rejected e) × (is_not_found e ≡ true) × (key ≡ none))

module _ {B U L : Type 0} (s : Page B U L) where
  -- When the four calls of the overview have settled, the page is loaded; it has no error exactly
  -- if the balance, the usage and the ledger were answered, and the key was or is not found, and
  -- then it shows these. Whatever else failed, the data from before stay.
  load_lem :
      (balance : Outcome B) (usage : Outcome U) (ledger : Outcome L) (key : Outcome PublicKey)
      → let r = load balance usage ledger key s in
        (r.loading ≡ false)
        × (((d : Data B U L) × (balance ≡ resolved d.balance)
              × (usage ≡ resolved d.usage)
              × (ledger ≡ resolved d.ledger)
              × IsKey key d.api_key
              × (r.data_ ≡ some d)
              × (r.error ≡ none))
            ⊎ ((e : Failure) × ((balance ≡ rejected e)
                  ⊎ (usage ≡ rejected e)
                  ⊎ (ledger ≡ rejected e)
                  ⊎ ((key ≡ rejected e) × (is_not_found e ≡ false)))
                × (r.data_ ≡ s.data_)
                × (r.error ≡ some (readable_error e))))
  unfolding load
  load_lem (rejected e) usage ledger key = (refl, inr (e, inl refl, refl, refl))
  load_lem (resolved b) (rejected e) ledger key = (refl, inr (e, inr (inl refl), refl, refl))
  load_lem (resolved b) (resolved u) (rejected e) key =
      (refl, inr (e, inr (inr (inl refl)), refl, refl))
  load_lem (resolved b) (resolved u) (resolved l) (resolved k) = (
    refl,
    inl (
      record { balance = b; usage = u; ledger = l; api_key = some k },
      refl,
      refl,
      refl,
      inl (k, refl, refl),
      refl,
      refl,
    ),
  )
  load_lem (resolved b) (resolved u) (resolved l) (rejected e) =
      elim (Bool-cases (is_not_found e)) [
        | inl h ↦ rw h (
          refl,
          inl (
            record { balance = b; usage = u; ledger = l; api_key = none },
            refl,
            refl,
            refl,
            inr (e, refl, h, refl),
            refl,
            refl,
          ),
        )
        | inr h ↦ rw h (refl, inr (e, inr (inr (inr (refl, h))), refl, refl))
      ]
