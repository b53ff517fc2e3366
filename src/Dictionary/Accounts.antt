-- ===== src/Dictionary/Accounts.antt =====
-- util/cache/cache.go: what `GetOrCreateAccountIds` and `GetOrCreateNftIds` share with the others.
use rollytics.Prelude.{
  ℕ, ◌≡◌, ◌≢◌, refl, sym, ap, ◌∙◌, inl, inr, Bool, List, [], ◌∷◌, Option, none, some, All, All-imp,
  Has, Option-cases,
}
use rollytics.Prelude.GoMap.{get, put, get-put_self, get-put_ne}
use rollytics.Text.{Text, text_discrete}
use rollytics.Nft.Changes.{NftKey, NftKey-discrete}
use rollytics.Dictionary.{Cache, Table, get_or_create_ids}
use rollytics.Dictionary.Maps.{AreDistinct}
use rollytics.Dictionary.Normal.{
  dedup, account_items, nft_items, get_or_create_account_ids, get_or_create_nft_ids,
}
use rollytics.Dictionary.Canonical.{IsCanonical, via, get_or_create_normal-eq}

abbrev pub itself : {K : Type 0} → K → K
itself k = k

abbrev Seen : Type 0
Seen = List (Text × Unit {0})

dedup-old :
    (a : Text) (accounts : List Text) (seen : Seen) {u : Unit {0}}
    → get text_discrete a seen ≡ some u
    → dedup (a ∷ accounts) seen ≡ dedup accounts seen
unfolding dedup
dedup-old a accounts seen e = rw (e, dedup) refl

dedup-new :
    (a : Text) (accounts : List Text) (seen : Seen)
    → get text_discrete a seen ≡ none
    → dedup (a ∷ accounts) seen ≡ a ∷ dedup accounts (put text_discrete a tt seen)
unfolding dedup
dedup-new a accounts seen e = rw (e, dedup) refl

dedup-nil : (seen : Seen) → dedup [] seen ≡ []
unfolding dedup
dedup-nil seen = refl

All-dedup :
    (P : Text → Type 0) (accounts : List Text) (seen : Seen)
    → All P accounts
    → All P (dedup accounts seen)
All-dedup P [] seen all = rw (dedup-nil seen) tt
All-dedup P (a ∷ accounts) seen all = elim (Option-cases (get text_discrete a seen)) [
  | inl new ↦ rw (dedup-new a accounts seen new) (all.0, All-dedup P accounts _ all.1)
  | inr (u, old) ↦ rw (dedup-old a accounts seen old) (All-dedup P accounts seen all.1)
]

some-ne-none : {u : Unit {0}} → some u ≡ none → ⊥
some-ne-none e = cc

none-put :
    (a b : Text) (seen : Seen)
    → get text_discrete b (put text_discrete a tt seen) ≡ none
    → (a ≢ b) × (get text_discrete b seen ≡ none)
none-put a b seen e = elim (text_discrete a b) [
  | no other ↦ (other, sym (get-put_ne text_discrete a b tt seen other) ∙ e)
  | yes same ↦
      elim (some-ne-none (
        sym (get-put_self text_discrete a tt seen)
        ∙ ap (λ x. get text_discrete x (put text_discrete a tt seen)) same
        ∙ e)) [ ]
]

dedup-unseen :
    (accounts : List Text) (seen : Seen)
    → All (λ b. get text_discrete b seen ≡ none) (dedup accounts seen)
dedup-unseen [] seen = rw (dedup-nil seen) tt
dedup-unseen (a ∷ accounts) seen = elim (Option-cases (get text_discrete a seen)) [
  | inl new ↦ rw (dedup-new a accounts seen new) (
    new,
    All-imp _ (λ b e. (none-put a b seen e).1)
        (dedup-unseen accounts (put text_discrete a tt seen)),
  )
  | inr (u, old) ↦ rw (dedup-old a accounts seen old) (dedup-unseen accounts seen)
]

dedup-AreDistinct :
    (accounts : List Text) (seen : Seen) → AreDistinct text_discrete itself (dedup accounts seen)
dedup-AreDistinct [] seen = rw (dedup-nil seen) tt
dedup-AreDistinct (a ∷ accounts) seen = elim (Option-cases (get text_discrete a seen)) [
  | inl new ↦ rw (dedup-new a accounts seen new) (
    All-imp _ (λ b e. (none-put a b seen e).0)
        (dedup-unseen accounts (put text_discrete a tt seen)),
    dedup-AreDistinct accounts (put text_discrete a tt seen),
  )
  | inr (u, old) ↦ rw (dedup-old a accounts seen old) (dedup-AreDistinct accounts seen)
]

Has-dedup :
    (a : Text) (accounts : List Text) (seen : Seen)
    → Has a accounts
    → get text_discrete a seen ≡ none
    → Has a (dedup accounts seen)
Has-dedup a [] seen there e = elim there [ ]
Has-dedup a (b ∷ accounts) seen (inl same) e =
    rw (dedup-new b accounts seen (ap (λ x. get text_discrete x seen) (sym same) ∙ e)) (inl same)
Has-dedup a (b ∷ accounts) seen (inr there) e = elim (Option-cases (get text_discrete b seen)) [
  | inr (u, old) ↦ rw (dedup-old b accounts seen old) (Has-dedup a accounts seen there e)
  | inl new ↦ rw (dedup-new b accounts seen new) (elim (text_discrete a b) [
    | yes same ↦ inl same
    | no other ↦ inr (
        Has-dedup a accounts (put text_discrete b tt seen) there
          (get-put_ne text_discrete b a tt seen (λ p. other (sym p)) ∙ e))
  ])
]

module _ (bech32 : Text → Option (List ℕ)) (address_text : List ℕ → Text) {C D : Type 0} where
  -- For accounts in their normal form the lookup is that of the other dictionaries, over a table of
  -- texts, of the accounts without repetition: a list of different accounts with every one of them.
  pub get_or_create_account_ids-eq :
      (ops : Cache Text C) (db : Table (List ℕ) D) (create : Bool) (accounts : List Text) (c : C)
      (d : D)
      → All (IsCanonical (account_items bech32 address_text)) accounts
      → (get_or_create_account_ids bech32 address_text ops db create accounts c d
          ≡ get_or_create_ids text_discrete itself ops
              (via text_discrete (account_items bech32 address_text) db)
              create
              (dedup accounts [])
              c
              d)
        × AreDistinct text_discrete itself (dedup accounts [])
        × ((a : Text) → Has a accounts → Has a (dedup accounts []))
  unfolding get_or_create_account_ids get
  get_or_create_account_ids-eq ops db create accounts c d all = (
    get_or_create_normal-eq text_discrete (account_items bech32 address_text) ops db create
        (dedup accounts []) c d (All-dedup _ accounts [] all),
    dedup-AreDistinct accounts [],
    λ a there. Has-dedup a accounts [] there refl,
  )

  -- For tokens whose collection is written as the table's bytes are, the lookup is that of the other
  -- dictionaries, over a table of keys.
  pub get_or_create_nft_ids-eq :
      (ops : Cache NftKey C) (db : Table (List ℕ × Text) D) (create : Bool) (keys : List NftKey)
      (c : C) (d : D)
      → All (IsCanonical (nft_items bech32 address_text)) keys
      → get_or_create_nft_ids bech32 address_text ops db create keys c d
        ≡ get_or_create_ids NftKey-discrete itself ops
            (via NftKey-discrete (nft_items bech32 address_text) db)
            create
            keys
            c
            d
  unfolding get_or_create_nft_ids
  get_or_create_nft_ids-eq ops db create keys c d all =
      get_or_create_normal-eq NftKey-discrete (nft_items bech32 address_text) ops db create keys c d
        all
