-- ===== src/Genesis/Portions.antt =====
-- The contents and the sizes of the portions of db_adapters/genesis.rs.
use near_indexer_for_explore.Base.{
  ℕ, ◌+◌, ◌≤◌, List, [], ◌∷◌, ◌++◌, length, length-append, eqb, flat_map, All, All-append, ◌≡◌,
  refl, sym, ap, ◌∙◌, arith, Bool-cases, inl, inr,
}
use mathlib.Core.List.{append_assoc, append-nil}
use near_indexer_for_explore.Accounts.{Account, new_from_genesis}
use near_indexer_for_explore.AccessKeys.{AccessKey, from_genesis}
use near_indexer_for_explore.Genesis.{
  StateRecord, account_record, access_key_record, other_record, Portion, accounts_portion,
  keys_portion, Progress, portion_size, store_full_accounts, store_full_keys, take_record,
  for_each_record, store_genesis_records,
}

abbrev pub portion_accounts : Portion → List Account
portion_accounts (accounts_portion accounts) = accounts
portion_accounts (keys_portion keys) = []

abbrev pub portion_keys : Portion → List AccessKey
portion_keys (accounts_portion accounts) = []
portion_keys (keys_portion keys) = keys

-- A portion has at most `portion_size` rows.
abbrev pub Bounded : Portion → Type 0
Bounded q = (length (portion_accounts q) ≤ portion_size) × (length (portion_keys q) ≤ portion_size)

abbrev pub account_of : ℕ → StateRecord → List Account
account_of h (account_record account_id) = new_from_genesis account_id h ∷ []
account_of h _ = []

abbrev pub key_of : ℕ → StateRecord → List AccessKey
key_of h (access_key_record account_id public_key access_key) =
    from_genesis public_key account_id access_key.permission h ∷ []
key_of h _ = []

flat_map-snoc :
    {A B : Type 0} (f : A → List B) (xs : List A) (x : A)
    → flat_map f (xs ++ x ∷ []) ≡ flat_map f xs ++ f x
flat_map-snoc f [] x = append-nil (f x)
flat_map-snoc f (y ∷ xs) x =
    ap (f y ++◌) (flat_map-snoc f xs x) ∙ sym (append_assoc (f y) (flat_map f xs) (f x))

-- All rows that are stored or wait.
abbrev accounts_seen : Progress → List Account
accounts_seen p = flat_map portion_accounts p.stored ++ p.accounts_to_store

abbrev keys_seen : Progress → List AccessKey
keys_seen p = flat_map portion_keys p.stored ++ p.access_keys_to_store

-- The sizes that hold all through the walk.
abbrev Sized : Progress → Type 0
Sized p =
    (length p.accounts_to_store ≤ portion_size)
    × (length p.access_keys_to_store ≤ portion_size)
    × All Bounded p.stored

full_accounts-seen :
    (p : Progress)
    → (accounts_seen (store_full_accounts p) ≡ accounts_seen p)
      × (keys_seen (store_full_accounts p) ≡ keys_seen p)
full_accounts-seen p = elim (Bool-cases (eqb (length p.accounts_to_store) portion_size)) [
  | inl full ↦ rw full (
    append-nil _ ∙ flat_map-snoc portion_accounts p.stored (accounts_portion p.accounts_to_store),
    ap (λ ks. ks ++ p.access_keys_to_store)
        (flat_map-snoc portion_keys p.stored (accounts_portion p.accounts_to_store) ∙ append-nil _),
  )
  | inr room ↦ rw room (refl, refl)
]

full_keys-seen :
    (p : Progress)
    → (accounts_seen (store_full_keys p) ≡ accounts_seen p)
      × (keys_seen (store_full_keys p) ≡ keys_seen p)
full_keys-seen p = elim (Bool-cases (eqb (length p.access_keys_to_store) portion_size)) [
  | inl full ↦ rw full (
    ap (λ ks. ks ++ p.accounts_to_store)
        (flat_map-snoc portion_accounts p.stored (keys_portion p.access_keys_to_store)
          ∙ append-nil _),
    append-nil _ ∙ flat_map-snoc portion_keys p.stored (keys_portion p.access_keys_to_store),
  )
  | inr room ↦ rw room (refl, refl)
]

full_accounts-Sized :
    (p : Progress)
    → Sized p
    → Sized (store_full_accounts p)
      × (length (store_full_accounts p).accounts_to_store + 1 ≤ portion_size)
full_accounts-Sized p (a, k, s) =
    elim (Bool-cases (eqb (length p.accounts_to_store) portion_size)) [
      | inl full ↦
          rw full
            ((omega arith, k, All-append Bounded p.stored _ s ((a, omega arith), tt)), omega arith)
      | inr room ↦ rw room ((a, k, s), ground (arith, room))
    ]

full_keys-Sized :
    (p : Progress)
    → Sized p
    → length p.accounts_to_store + 1 ≤ portion_size
    → Sized (store_full_keys p)
      × (length (store_full_keys p).accounts_to_store + 1 ≤ portion_size)
      × (length (store_full_keys p).access_keys_to_store + 1 ≤ portion_size)
full_keys-Sized p (a, k, s) b =
    elim (Bool-cases (eqb (length p.access_keys_to_store) portion_size)) [
      | inl full ↦
          rw full (
            (a, omega arith, All-append Bounded p.stored _ s ((omega arith, k), tt)),
            b,
            omega arith,
          )
      | inr room ↦ rw room ((a, k, s), b, ground (arith, room))
    ]

module _ (h : ℕ) where
  take_record-seen :
      (r : StateRecord) (p : Progress)
      → (accounts_seen (take_record h r p) ≡ accounts_seen p ++ account_of h r)
        × (keys_seen (take_record h r p) ≡ keys_seen p ++ key_of h r)
  take_record-seen (account_record id) p = (
    sym (append_assoc (flat_map portion_accounts p.stored) p.accounts_to_store _),
    sym (append-nil _),
  )
  take_record-seen (access_key_record id key access) p = (
    sym (append-nil _),
    sym (append_assoc (flat_map portion_keys p.stored) p.access_keys_to_store _),
  )
  take_record-seen other_record p = (sym (append-nil _), sym (append-nil _))

  take_record-Sized :
      (r : StateRecord) (p : Progress)
      → Sized p
      → length p.accounts_to_store + 1 ≤ portion_size
      → length p.access_keys_to_store + 1 ≤ portion_size
      → Sized (take_record h r p)
  take_record-Sized (account_record id) p (a, k, s) b c =
      (omega (arith, length-append p.accounts_to_store (new_from_genesis id h ∷ [])), k, s)
  take_record-Sized (access_key_record id key access) p (a, k, s) b c = (
    a,
    omega (
      arith,
      length-append p.access_keys_to_store (from_genesis key id access.permission h ∷ []),
    ),
    s,
  )
  take_record-Sized other_record p s b c = s

  for_each_record-seen :
      (rs : List StateRecord) (p : Progress)
      → Sized p
      → (accounts_seen (for_each_record h rs p) ≡ accounts_seen p ++ flat_map (account_of h) rs)
        × (keys_seen (for_each_record h rs p) ≡ keys_seen p ++ flat_map (key_of h) rs)
        × Sized (for_each_record h rs p)
  unfolding for_each_record
  for_each_record-seen [] p s = (sym (append-nil _), sym (append-nil _), s)
  for_each_record-seen (r ∷ rs) p s =
      let (s1, b1) = full_accounts-Sized p s in
      let q = store_full_keys (store_full_accounts p) in
      let (s2, b2, c2) = full_keys-Sized (store_full_accounts p) s1 b1 in
      let (ea, ek, s3) =
        for_each_record-seen rs (take_record h r q) (take_record-Sized r q s2 b2 c2) in
      let (ta, tk) = take_record-seen r q in
      let (fa, fk) = full_keys-seen (store_full_accounts p) in
      let (ga, gk) = full_accounts-seen p in
      (
        ea
            ∙ (ap (λ xs. xs ++ flat_map (account_of h) rs)
                  (ta ∙ ap (λ xs. xs ++ account_of h r) (fa ∙ ga))
                ∙ append_assoc (accounts_seen p) (account_of h r) (flat_map (account_of h) rs)),
        ek
            ∙ (ap (λ xs. xs ++ flat_map (key_of h) rs) (tk ∙ ap (λ xs. xs ++ key_of h r) (fk ∙ gk))
                ∙ append_assoc (keys_seen p) (key_of h r) (flat_map (key_of h) rs)),
        s3,
      )

  flat_map-append :
      {A B : Type 0} (f : A → List B) (xs ys : List A)
      → flat_map f (xs ++ ys) ≡ flat_map f xs ++ flat_map f ys
  flat_map-append f [] ys = refl
  flat_map-append f (x ∷ xs) ys =
      ap (f x ++◌) (flat_map-append f xs ys)
      ∙ sym (append_assoc (f x) (flat_map f xs) (flat_map f ys))

  -- The portions that `store_genesis_records` stores hold, one after the other, the rows of all
  -- accounts and of all access keys of the genesis, each once and in order, and no portion has
  -- more than 5000 rows.
  pub store_genesis_records-rows :
      (rs : List StateRecord)
      → (flat_map portion_accounts (store_genesis_records h rs) ≡ flat_map (account_of h) rs)
        × (flat_map portion_keys (store_genesis_records h rs) ≡ flat_map (key_of h) rs)
        × All Bounded (store_genesis_records h rs)
  unfolding store_genesis_records
  store_genesis_records-rows rs =
      let start : Progress = record {
        accounts_to_store = [];
        access_keys_to_store = [];
        stored = [];
      } in
      let p = for_each_record h rs start in
      let (ea, ek, (a, k, s)) = for_each_record-seen rs start (omega arith, omega arith, tt) in
      (
        flat_map-append portion_accounts p.stored _
            ∙ (ap (flat_map portion_accounts p.stored ++◌) (append-nil p.accounts_to_store) ∙ ea),
        flat_map-append portion_keys p.stored _
            ∙ (ap (flat_map portion_keys p.stored ++◌) (append-nil p.access_keys_to_store) ∙ ek),
        All-append Bounded p.stored _ s ((a, omega arith), ((omega arith, k), tt)),
      )
