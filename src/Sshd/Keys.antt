-- ===== src/Sshd/Keys.antt =====
-- The keys that the sshd generates in a directory that has none.
use pytest_salt_factories.Base.{
  ℕ, ◌≡◌, refl, ◌∙◌, ap, true, false, not, Option, none, some, List, [], ◌∷◌, ◌==◌, ==_refl, any,
  nat_eq, arith, Bool-cases, Option-cases, inl, inr,
}
use pytest_salt_factories.Base.Text.{Text, codes, text_eq, text_methods}
use pytest_salt_factories.Base.Dict.{lookup, insert, lookup-insert}
use pytest_salt_factories.Sshd.{
  File, Directory, ok, and_then, is_there, exists, chmod_found, chmod, pub_of, chmod_keys, Platform,
  key_made, generate_key, generate_dsa, generate_host_keys,
}

-- The files of the host keys.
abbrev pub key_files : List Text
key_files =
    codes "ssh_host_dsa_key"
    ∷ codes "ssh_host_dsa_key.pub"
    ∷ codes "ssh_host_ecdsa_key"
    ∷ codes "ssh_host_ecdsa_key.pub"
    ∷ codes "ssh_host_ed25519_key"
    ∷ codes "ssh_host_ed25519_key.pub"
    ∷ []

-- `ssh-keygen -t key_type -b bits`, where neither file is there: it makes a key of that type and its
-- public part, and leaves the other files as they are. `type_of` is the type of a private key.
pub record KeygenLaws (type_of : Text → Text)
    (keygen : Text → Text → Text → Directory → Option Directory) (key_type bits : Text)
    : Type 0 where
  pub made :
      (name : Text) (d : Directory)
      → exists name d ≡ false
      → exists (pub_of name) d ≡ false
      → (f h : File) × (keygen name key_type bits d
          ≡ some (insert (pub_of name) h (insert name f d)))
        × (type_of f.contents ≡ key_type)

name-pub_of : (name : Text) → (name == pub_of name) ≡ false
unfolding pub_of text_methods
name-pub_of [] = refl
name-pub_of (c ∷ name) = ground (arith, name-pub_of name)

pub_of-name : (name : Text) → (pub_of name == name) ≡ false
unfolding pub_of text_methods
pub_of-name [] = refl
pub_of-name (c ∷ name) = ground (arith, pub_of-name name)

absent : (name : Text) (d : Directory) → exists name d ≡ false → lookup name d ≡ none
unfolding exists is_there
absent name d h = elim (Option-cases (lookup name d)) [
  | inl lacks ↦ lacks
  | inr (f, has) ↦ absurd (ground (arith, h, has))
]

absent_keys :
    (d : Directory)
    → any (λ name. exists name d) key_files ≡ false
    → (lookup (codes "ssh_host_dsa_key") d ≡ none)
      × (lookup (codes "ssh_host_dsa_key.pub") d ≡ none)
      × (lookup (codes "ssh_host_ecdsa_key") d ≡ none)
      × (lookup (codes "ssh_host_ecdsa_key.pub") d ≡ none)
      × (lookup (codes "ssh_host_ed25519_key") d ≡ none)
      × (lookup (codes "ssh_host_ed25519_key.pub") d ≡ none)
unfolding any
absent_keys d no_key = (
  absent (codes "ssh_host_dsa_key") d (ground (arith, no_key)),
  absent (codes "ssh_host_dsa_key.pub") d (ground (arith, no_key)),
  absent (codes "ssh_host_ecdsa_key") d (ground (arith, no_key)),
  absent (codes "ssh_host_ecdsa_key.pub") d (ground (arith, no_key)),
  absent (codes "ssh_host_ed25519_key") d (ground (arith, no_key)),
  absent (codes "ssh_host_ed25519_key.pub") d (ground (arith, no_key)),
)

chmod-found :
    (name : Text) (mode : ℕ) (f : File) (d : Directory)
    → lookup name d ≡ some f
    → chmod name mode d ≡ ok (insert name (record f { mode = mode }) d)
unfolding chmod chmod_found
chmod-found name mode f d has = rw has refl

module _ (type_of : Text → Text) where
  -- A private key of the type, and its public part, both of the mode `0o0400`.
  abbrev pub IsKey : Text → Text → Directory → Type 0
  IsKey name key_type e =
      (f h : File) × (lookup name e ≡ some f)
      × (type_of f.contents ≡ key_type)
      × (f.mode ≡ 256)
      × (lookup (pub_of name) e ≡ some h)
      × (h.mode ≡ 256)

  -- The key is all that is new.
  abbrev Adds : Text → Text → Directory → Directory → Type 0
  Adds name key_type d e =
      IsKey name key_type e
      × ((other : Text)
          → (other == name) ≡ false
          → (other == pub_of name) ≡ false
          → lookup other e ≡ lookup other d)

  chmod_keys-Adds :
      (name key_type : Text) (f h : File) (d : Directory)
      → type_of f.contents ≡ key_type
      → (e : Directory) × (chmod_keys name (insert (pub_of name) h (insert name f d)) ≡ ok e)
        × Adds name key_type d e
  unfolding chmod_keys and_then
  chmod_keys-Adds name key_type f h d kind =
      let d₁ = insert name f d in
      let d₂ = insert (pub_of name) h d₁ in
      let f' : File = record f { mode = 256 } in
      let h' : File = record h { mode = 256 } in
      let d₃ = insert name f' d₂ in
      let no : (name == pub_of name) ≡ false = name-pub_of name in
      let also_no : (pub_of name == name) ≡ false = pub_of-name name in
      let yes : (name == name) ≡ true = ==_refl name in
      let also_yes : (pub_of name == pub_of name) ≡ true = ==_refl (pub_of name) in
      let has : lookup name d₂ ≡ some f = ground (
        arith,
        no,
        also_no,
        yes,
        also_yes,
        lookup-insert name (pub_of name) h d₁,
        lookup-insert name name f d,
      ) in
      let has_pub : lookup (pub_of name) d₃ ≡ some h = ground (
        arith,
        no,
        also_no,
        yes,
        also_yes,
        lookup-insert (pub_of name) name f' d₂,
        lookup-insert (pub_of name) (pub_of name) h d₁,
      ) in
      (
        insert (pub_of name) h' d₃,
        ap (λ r. and_then r (chmod (pub_of name) 256)) (chmod-found name 256 f d₂ has)
            ∙ chmod-found (pub_of name) 256 h d₃ has_pub,
        (
          (
            f',
            h',
            ground (
              arith,
              no,
              also_no,
              yes,
              also_yes,
              lookup-insert name (pub_of name) h' d₃,
              lookup-insert name name f' d₂,
            ),
            kind,
            refl,
            ground (
              arith,
              no,
              also_no,
              yes,
              also_yes,
              lookup-insert (pub_of name) (pub_of name) h' d₃,
            ),
            refl,
          ),
          λ other not_name not_pub. ground (
            arith,
            not_name,
            not_pub,
            lookup-insert other (pub_of name) h' d₃,
            lookup-insert other name f' d₂,
            lookup-insert other (pub_of name) h d₁,
            lookup-insert other name f d,
          ),
        ),
      )

  module _ (keygen : Text → Text → Text → Directory → Option Directory) where
    generate_key-Adds :
        (name key_type bits : Text) (d : Directory)
        → KeygenLaws type_of keygen key_type bits
        → lookup name d ≡ none
        → lookup (pub_of name) d ≡ none
        → (e : Directory) × (generate_key keygen name key_type bits d ≡ ok e)
          × Adds name key_type d e
    unfolding generate_key key_made exists is_there
    generate_key-Adds name key_type bits d laws lacks lacks_pub =
        let (f, h, done, kind) = laws.made name d (ap is_there lacks) (ap is_there lacks_pub) in
        let (e, changed, adds) = chmod_keys-Adds name key_type f h d kind in
        (e, rw (lacks, done) changed, adds)

    generate_dsa-made :
        (p : Platform) (d : Directory)
        → KeygenLaws type_of keygen (codes "dsa") (codes "1024")
        → lookup (codes "ssh_host_dsa_key") d ≡ none
        → lookup (codes "ssh_host_dsa_key.pub") d ≡ none
        → (e : Directory) × (generate_dsa keygen p d ≡ ok e)
          × (exists (codes "ssh_host_dsa_key") e ≡ not p.fips)
          × ((other : Text)
              → (other == codes "ssh_host_dsa_key") ≡ false
              → (other == codes "ssh_host_dsa_key.pub") ≡ false
              → lookup other e ≡ lookup other d)
    unfolding generate_dsa exists is_there pub_of codes
    generate_dsa-made p d laws lacks lacks_pub =
        let (e, done, (key, kept)) =
          generate_key-Adds (codes "ssh_host_dsa_key") (codes "dsa") (codes "1024") d laws lacks
            lacks_pub in
        let (f, h, has, kind, mode, has_pub, pub_mode) = key in
        elim (Bool-cases p.fips) [
          | inl fips ↦ (d, rw fips refl, rw (fips, lacks) refl, λ other no also_no. refl)
          | inr plain ↦ (e, rw plain done, rw (plain, has) refl, kept)
        ]

    -- The keys of the host, in a directory that has none of their files.
    pub host_keys-made :
        KeygenLaws type_of keygen (codes "dsa") (codes "1024")
        → KeygenLaws type_of keygen (codes "ecdsa") (codes "521")
        → KeygenLaws type_of keygen (codes "ed25519") (codes "521")
        → (p : Platform) (d : Directory) → any (λ name. exists name d) key_files ≡ false
        → (e : Directory) × (generate_host_keys keygen p d ≡ ok e)
          × IsKey (codes "ssh_host_ecdsa_key") (codes "ecdsa") e
          × IsKey (codes "ssh_host_ed25519_key") (codes "ed25519") e
          × (exists (codes "ssh_host_dsa_key") e ≡ not p.fips)
    unfolding generate_host_keys and_then any exists pub_of text_methods nat_eq
    host_keys-made dsa ecdsa ed25519 p d no_key =
        let none_there = absent_keys d no_key in
        let (e, first, old, kept) = generate_dsa-made p d dsa none_there.0 none_there.1 in
        let (g, second, (key, kept_ecdsa)) =
          generate_key-Adds (codes "ssh_host_ecdsa_key") (codes "ecdsa") (codes "521") e ecdsa
            (kept (codes "ssh_host_ecdsa_key") refl refl ∙ none_there.2)
            (kept (codes "ssh_host_ecdsa_key.pub") refl refl ∙ none_there.3) in
        let (h, third, (last_key, kept_last)) =
          generate_key-Adds (codes "ssh_host_ed25519_key") (codes "ed25519") (codes "521") g ed25519
            (kept_ecdsa (codes "ssh_host_ed25519_key") refl refl
              ∙ kept (codes "ssh_host_ed25519_key") refl refl
              ∙ none_there.4)
            (kept_ecdsa (codes "ssh_host_ed25519_key.pub") refl refl
              ∙ kept (codes "ssh_host_ed25519_key.pub") refl refl
              ∙ none_there.5) in
        let (f, f_pub, has, kind, mode, has_pub, pub_mode) = key in
        let make_ecdsa =
          generate_key keygen (codes "ssh_host_ecdsa_key") (codes "ecdsa") (codes "521") in
        let make_last =
          generate_key keygen (codes "ssh_host_ed25519_key") (codes "ed25519") (codes "521") in
        (
          h,
          ap (λ r. and_then r (λ a. and_then (make_ecdsa a) make_last)) first
              ∙ ap (λ r. and_then r make_last) second
              ∙ third,
          (
            f,
            f_pub,
            kept_last (codes "ssh_host_ecdsa_key") refl refl ∙ has,
            kind,
            mode,
            kept_last (codes "ssh_host_ecdsa_key.pub") refl refl ∙ has_pub,
            pub_mode,
          ),
          last_key,
          ap is_there (
                kept_last (codes "ssh_host_dsa_key") refl refl
                ∙ kept_ecdsa (codes "ssh_host_dsa_key") refl refl)
              ∙ old,
        )
