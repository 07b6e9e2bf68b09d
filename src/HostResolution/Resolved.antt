-- ===== src/HostResolution/Resolved.antt =====
-- Which host `resolve_host_for_recipient` of src/host_resolution.rs picks.
use mathlib.Core.List.{Memᴰ}
use rust_messagebox_client.Prelude.{
  String, ◌≡◌, refl, ap, none, some, List, [], ◌∷◌, ◌++◌, ◌⊎◌, inl, inr, Option-cases,
}
use rust_messagebox_client.Error.{ok, err, Fallible}
use rust_messagebox_client.Types.{AdvertisementToken}
use rust_messagebox_client.Deps.{Deps}
use rust_messagebox_client.Io.{LookupOutput, lookup, bind}
use rust_messagebox_client.Io.Runs.{Event, Extends, AllRuns}
use rust_messagebox_client.Session.{Client}
use rust_messagebox_client.HostResolution.{
  advertisement, advertisements, query_object, first_host, query_advertisements_inner,
  query_advertisements, resolve_host_for_recipient,
}

module _ (D : Deps) (client : Client) where
  -- None of the outputs is an advertisement.
  abbrev pub NoneValid : List (LookupOutput D) → Type 0
  NoneValid outputs =
      (output : LookupOutput D) → Memᴰ output outputs → advertisement D output ≡ none

  -- The first of the outputs that is an advertisement, as one.
  pub record First (outputs : List (LookupOutput D)) (token : AdvertisementToken) : Type 0 where
    pub before : List (LookupOutput D)
    pub output : LookupOutput D
    pub after : List (LookupOutput D)
    pub split : outputs ≡ before ++ output ∷ after
    pub skipped : NoneValid before
    pub valid : advertisement D output ≡ some token

  abbrev pub Chosen : List (LookupOutput D) → String → Type 0
  Chosen outputs host =
      (NoneValid outputs × (host ≡ client.host))
      ⊎ ((token : AdvertisementToken) × First outputs token × (host ≡ token.host))

  skip-NoneValid :
      (output : LookupOutput D) (outputs : List (LookupOutput D))
      → advertisement D output ≡ none
      → NoneValid outputs
      → NoneValid (output ∷ outputs)
  skip-NoneValid output outputs e h o (Memᴰ.head same) = rw same e
  skip-NoneValid output outputs e h o (Memᴰ.tail m) = h o m

  skip-Chosen :
      (output : LookupOutput D) (outputs : List (LookupOutput D)) (host : String)
      → advertisement D output ≡ none
      → Chosen outputs host
      → Chosen (output ∷ outputs) host
  skip-Chosen output outputs host e (inl (h, same)) = inl (skip-NoneValid output outputs e h, same)
  skip-Chosen output outputs host e (inr (token, first, same)) = inr (
    token,
    record {
      before = output ∷ first.before;
      output = first.output;
      after = first.after;
      split = ap (λ (os : List (LookupOutput D)). output ∷ os) first.split;
      skipped = skip-NoneValid output first.before e first.skipped;
      valid = first.valid;
    },
    same,
  )

  first_host-Chosen :
      (outputs : List (LookupOutput D))
      → Chosen outputs (first_host D client (advertisements D outputs))
  unfolding advertisements
  first_host-Chosen [] = inl ((λ o. elim [ ]), refl)
  first_host-Chosen (output ∷ outputs) = elim (Option-cases (advertisement D output)) [
    | inl e ↦ rw (first_host, e) (skip-Chosen output outputs _ e (first_host-Chosen outputs))
    | inr (token, e) ↦
        rw (first_host, e)
          (inr (
            token,
            record {
              before = [];
              output = output;
              after = outputs;
              split = refl;
              skipped = λ o. elim [ ];
              valid = e;
            },
            refl,
          ))
  ]

  -- What the overlay said, and the host that follows from it.
  abbrev pub Resolved : String → List (Event D) → Fallible String → Type 0
  Resolved recipient log (err _) = ⊥
  Resolved recipient log (ok host) =
      ((e : String) × Memᴰ (lookup "ls_messagebox" (query_object D recipient none), err e) log
        × (host ≡ client.host))
      ⊎ ((outputs : List (LookupOutput D)) × Memᴰ
            (lookup "ls_messagebox" (query_object D recipient none), ok outputs) log
          × Chosen outputs host)

  pub Resolved-Extends :
      (recipient host : String) (log log' : List (Event D))
      → Extends log log'
      → Resolved recipient log (ok host)
      → Resolved recipient log' (ok host)
  Resolved-Extends recipient host log log' ext (inl (e, failed, same)) = inl (e, ext _ failed, same)
  Resolved-Extends recipient host log log' ext (inr (outputs, known, chosen)) =
      inr (outputs, ext _ known, chosen)

  -- Every run of `resolve_host_for_recipient` succeeds. The host is that of the first valid
  -- advertisement among the outputs that the overlay returned for the recipient's identity key; it is
  -- the client's own host when none of them is valid and when the lookup failed.
  pub resolve_host_for_recipient-Resolved :
      (recipient : String) (log : List (Event D))
      → AllRuns (Resolved recipient) log (resolve_host_for_recipient D client recipient)
  unfolding resolve_host_for_recipient query_advertisements query_advertisements_inner bind
  resolve_host_for_recipient-Resolved recipient log = elim [
    | err e ↦ inl (e, Memᴰ.head refl, refl)
    | ok outputs ↦ inr (outputs, Memᴰ.head refl, first_host-Chosen outputs)
  ]
