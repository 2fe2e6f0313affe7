-- ===== src/Client/Crypto/Saving.antt =====
-- src/crypto.c, save_keys_to_file: what is on the disk when it returns, whichever call fails.
use c_chat.Prelude.{
  ℕ, suc, ◌≡◌, ◌≢◌, ◌⊎◌, refl, sym, ap, ◌∙◌, true, false, Option, none, some, List, [], ◌∷◌, ◌++◌,
  length, take, take-all, min, str_eq_refl, leb, leb→le, leb→gt, ◌<◌, arith, Bool-cases, inl, inr,
}
use mathlib.Core.List.{append_assoc, append-nil}
use c_chat.Client.{ClientResult, is_success, success}
use c_chat.Client.Host.{Host, Local, tick, put_file, fwrite, fclose, remove}
use c_chat.Client.Terminal.{strdup, home_directory, get_home_directory, secure_file_permissions}
use c_chat.Client.Crypto.{Keys}
use c_chat.Client.Crypto.Storage.{
  keys_path, derive_key_from_password, make_keys_directory, create_keys_directory, write_parts,
  write_key_file, save_boxed, save_derived, save_at, save_keys_to_file,
}
use c_chat.Client.Crypto.Files.{joined}

module _ (host : Host) (path : List ℕ) where
  fwrite-whole :
      (part before : List ℕ) (l : Local)
      → l.files path ≡ some before
      → (fwrite host path part l).0 ≡ true
      → (fwrite host path part l).1.files path ≡ some (before ++ part)
  unfolding fwrite
  fwrite-whole part before l e h =
      let n : ℕ = min (host.writes l.calls (length part)) (length part) in
      let size : n ≡ length part = ground (arith, h) in
      let whole : take n part ≡ part = take-all n part (omega (arith, size)) in
      rw (str_eq_refl path, e, whole) refl

  write_parts-whole :
      (parts : List (List ℕ)) (before : List ℕ) (l : Local)
      → l.files path ≡ some before
      → (write_parts host path parts l).0 ≡ true
      → (write_parts host path parts l).1.files path ≡ some (before ++ joined parts)
  unfolding write_parts
  write_parts-whole [] before l e h = e ∙ ap some (sym (append-nil before))
  write_parts-whole (part ∷ parts) before l e h = elim (Bool-cases (fwrite host path part l).0) [
    | inr short ↦ cc (rw short at h)
    | inl written ↦
        let next = fwrite-whole part before l e written in
        rw (written, ← append_assoc before part (joined parts))
          (write_parts-whole parts (before ++ part) (fwrite host path part l).1 next
            (rw written at h))
  ]

  -- What is at the path behind a failed save: what was there, or nothing, unless `unlink` fails.
  abbrev pub Left : Local → Local → Type 0
  Left before after =
      (after.files path ≡ before.files path)
      ⊎ (after.files path ≡ none)
      ⊎ ((n : ℕ) × (host.unlink n path ≡ false))

  -- These bytes are in the file: all of them, or those that an `fclose` that failed had put there.
  abbrev pub Holds : List ℕ → Local → Type 0
  Holds bytes after =
      (after.files path ≡ some bytes)
      ⊎ ((n : ℕ) × (host.flushes n (length bytes) < length bytes)
          × (after.files path ≡ some (take (host.flushes n (length bytes)) bytes)))

  fclose-Holds :
      (bytes : List ℕ) (l : Local) → l.files path ≡ some bytes → Holds bytes (fclose host path l)
  unfolding fclose
  fclose-Holds bytes l e =
      let kept : ℕ = host.flushes l.calls (length bytes) in
      elim (Bool-cases (leb (length bytes) kept)) [
        | inl all ↦ inl (rw (str_eq_refl path, e, take-all kept bytes (leb→le _ _ all)) refl)
        | inr cut ↦ inr (l.calls, leb→gt _ _ cut, rw (str_eq_refl path, e) refl)
      ]

  -- A save of these parts: they are in the file, or the save failed.
  abbrev pub Saves : List (List ℕ) → Local → ClientResult × Local → Type 0
  Saves parts l r = ((r.0 ≡ success) × Holds (joined parts) r.1) ⊎ ((r.0 ≢ success) × Left l r.1)

  remove-Left : (l l' : Local) → Left l (remove host path l')
  unfolding remove
  remove-Left l l' = elim (Bool-cases (host.unlink l'.calls path)) [
    | inl gone ↦ inr (inl (rw (gone, str_eq_refl path) refl))
    | inr kept ↦ inr (inr (l'.calls, kept))
  ]

  write_key_file-Saves :
      (parts : List (List ℕ)) (l : Local) → Saves parts l (write_key_file host path parts l)
  unfolding write_key_file secure_file_permissions
  write_key_file-Saves parts l =
      let start : Local = put_file path (some []) (tick l) in
      elim (Bool-cases (host.creates l.calls path)) [
        | inr failed ↦ inr (rw failed ((λ e. cc), inl refl))
        | inl created ↦ elim (Bool-cases (write_parts host path parts start).0) [
          | inl written ↦ inl (
              rw (created, written)
                (
                  refl,
                  fclose-Holds (joined parts) (write_parts host path parts start).1
                      (write_parts-whole parts [] start (rw (str_eq_refl path) refl) written),
                ))
          | inr short ↦ inr (
              rw (created, short)
                ((λ e. cc), remove-Left l (fclose host path (write_parts host path parts start).1)))
        ]
      ]

module _ (host : Host) (home username password : List ℕ) (keys : Keys) where
  abbrev path : List ℕ
  path = keys_path home username

  -- A key file of these keys under the password was written, and what `fclose` left of it is there.
  pub record Written (after : Local) : Type 0 where
    pub salt : List ℕ
    pub nonce : List ℕ
    pub boxed : List ℕ
    pub made :
        host.secretbox
          (take host.private_key_size keys.private_key)
          nonce
          (host.pwhash password salt)
        ≡ some boxed
    pub layout :
        Holds host path
          (joined (salt ∷ nonce ∷ take host.public_key_size keys.public_key ∷ boxed ∷ []))
          after

  -- Success with the file, whole unless `fclose` failed, or failure with what was there, with nothing, or with a failed `unlink`.
  abbrev pub Outcome : Local → ClientResult × Local → Type 0
  Outcome before r = ((r.0 ≡ success) × Written r.1) ⊎ ((r.0 ≢ success) × Left host path before r.1)

  save_boxed-Outcome :
      (salt nonce : List ℕ) (o : Option (List ℕ)) (l : Local)
      → host.secretbox
          (take host.private_key_size keys.private_key)
          nonce
          (host.pwhash password salt)
        ≡ o
      → Outcome l (save_boxed host path salt nonce keys.public_key o l)
  unfolding save_boxed
  save_boxed-Outcome salt nonce none l e = inr ((λ e. cc), inl refl)
  save_boxed-Outcome salt nonce (some boxed) l e =
      let parts : List (List ℕ) =
        salt ∷ nonce ∷ take host.public_key_size keys.public_key ∷ boxed ∷ [] in
      elim (write_key_file-Saves host path parts l) [
        | inl (ok, whole) ↦
            inl (ok, record { salt = salt; nonce = nonce; boxed = boxed; made = e; layout = whole })
        | inr failed ↦ inr failed
      ]

  save_at-Outcome :
      (o : Option (List ℕ)) (l : Local)
      → (o ≡ none) ⊎ (o ≡ some home)
      → Outcome l (save_at host o username keys password l)
  unfolding save_at save_derived derive_key_from_password
  save_at-Outcome o l (inl missing) = rw missing (inr ((λ e. cc), inl refl))
  save_at-Outcome o l (inr here) = rw here (elim (Bool-cases (leb host.path_max (length path))) [
    | inl long ↦ rw long (inr ((λ e. cc), inl refl))
    | inr fits ↦ elim (Bool-cases (host.has_memory (suc l.calls))) [
      | inr full ↦ rw (fits, full) (inr ((λ e. cc), inl refl))
      | inl derived ↦
          rw (fits, derived)
            (save_boxed-Outcome (host.randombytes l.calls host.salt_size)
              (host.randombytes (suc (suc l.calls)) host.nonce_size) _ (tick (tick (tick l))) refl)
    ]
  ])

  module _ (here : host.home ≡ some home) where
    home_or_none :
        (l : Local)
        → let (o, l₁) = get_home_directory host l in
          ((o ≡ none) ⊎ (o ≡ some home)) × (l₁.files ≡ l.files)
    unfolding get_home_directory home_directory strdup
    home_or_none l = elim (Bool-cases (host.duplicates l.calls)) [
      | inl ok ↦ rw (here, ok) (inr refl, refl)
      | inr failed ↦ rw (here, failed) (inl refl, refl)
    ]

    make_keys_directory-files :
        (o : Option (List ℕ)) (l : Local) → (make_keys_directory host o l).1.files ≡ l.files
    unfolding make_keys_directory
    make_keys_directory-files none l = refl
    make_keys_directory-files (some h) l = ground arith

    create_keys_directory-files : (l : Local) → (create_keys_directory host l).1.files ≡ l.files
    unfolding create_keys_directory
    create_keys_directory-files l =
        let (o, l₁) = get_home_directory host l in
        make_keys_directory-files o l₁ ∙ (home_or_none l).1

    since :
        (l l' : Local) (r : ClientResult × Local)
        → l'.files path ≡ l.files path
        → Outcome l' r
        → Outcome l r
    since l l' r e (inl done) = inl done
    since l l' r e (inr (bad, inl same)) = inr (bad, inl (same ∙ e))
    since l l' r e (inr (bad, inr other)) = inr (bad, inr other)

    -- Where the home directory is named by the environment, and whichever call fails: when
    -- `save_keys_to_file` returns success, the whole key file is at its path, or, if `fclose` fails, the
    -- first bytes of it, as many as went to the disk; and when it returns an error, what was there
    -- before, or nothing, is at the path, unless `unlink` fails.
    pub save_keys_to_file-Outcome :
        (l : Local) → Outcome l (save_keys_to_file host username keys password l)
    unfolding save_keys_to_file
    save_keys_to_file-Outcome l =
        let (result, l₁) = create_keys_directory host l in
        let (o, l₂) = get_home_directory host l₁ in
        let (found, same) = home_or_none l₁ in
        let kept : l₂.files path ≡ l.files path =
          ap (λ (f : List ℕ → Option (List ℕ)). f path) (same ∙ create_keys_directory-files l) in
        elim (Bool-cases (is_success result)) [
          | inr failed ↦ rw failed (
              inr (
                (λ e. cc),
                inl (ap (λ (f : List ℕ → Option (List ℕ)). f path) (create_keys_directory-files l)),
              ))
          | inl made ↦ rw made (
              since l l₂ (save_at host o username keys password l₂) kept
                (save_at-Outcome o l₂ found))
        ]
