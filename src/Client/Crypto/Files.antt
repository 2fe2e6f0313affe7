-- ===== src/Client/Crypto/Files.antt =====
-- src/crypto.c: the parts of a file, and the calls of the file system, when none of them fails.
use c_chat.Prelude.{
  ℕ, suc, ◌<◌, ◌≡◌, refl, sym, ap, ◌∙◌, Bool, true, false, some, List, [], ◌∷◌, ◌++◌, map, length,
  take-all, take-append, drop-append, min, str_eq_refl, leb, ◌==◌, arith, Bool-cases, inl, inr,
}
use native.Mathlib.Nat.{le_refl}
use mathlib.Core.List.{append_assoc, append-nil}
use c_chat.Client.{success}
use c_chat.Client.Host.{Host, IsWorking, Local, tick, exists, put_file, content_of, fwrite, fclose}
use c_chat.Client.Terminal.{strdup, home_directory, get_home_directory, secure_file_permissions}
use c_chat.Client.Crypto.Storage.{
  keys_directory, make_keys_directory, create_keys_directory, write_parts, write_key_file,
  read_parts,
}

-- The parts of a file, one behind the other.
abbrev pub joined : List (List ℕ) → List ℕ
joined [] = []
joined (part ∷ parts) = part ++ joined parts

module _ (host : Host) (working : IsWorking host) where
  pub found_home :
      (h : List ℕ) (l : Local) → host.home ≡ some h → get_home_directory host l ≡ (some h, tick l)
  unfolding get_home_directory home_directory strdup
  found_home h l e = rw (e, working.duplicated l.calls) refl

  -- What a state and a result have in common with the success of a write.
  abbrev pub Wrote : List ℕ → List ℕ → Bool × Local → Type 0
  Wrote path bytes r = (r.0 ≡ true) × (r.1.files path ≡ some bytes)

  fwrite-Wrote :
      (path part : List ℕ) (l : Local)
      → Wrote path (content_of (l.files path) ++ part) (fwrite host path part l)
  unfolding fwrite
  fwrite-Wrote path part l =
      let n : min (host.writes l.calls (length part)) (length part) ≡ length part =
        omega (arith, working.written l.calls (length part)) in
      rw (n, str_eq_refl path, take-all (length part) part (le_refl _)) (ground arith, refl)

  write_parts-Wrote :
      (path : List ℕ) (parts : List (List ℕ)) (before : List ℕ) (l : Local)
      → l.files path ≡ some before
      → Wrote path (before ++ joined parts) (write_parts host path parts l)
  unfolding write_parts
  write_parts-Wrote path [] before l e = (refl, e ∙ ap some (sym (append-nil before)))
  write_parts-Wrote path (part ∷ parts) before l e =
      let (written, holds) = fwrite-Wrote path part l in
      let next : (fwrite host path part l).1.files path ≡ some (before ++ part) =
        holds ∙ ap (λ o. some (content_of o ++ part)) e in
      rw (written, ← append_assoc before part (joined parts))
        (write_parts-Wrote path parts (before ++ part) (fwrite host path part l).1 next)

  fclose-whole :
      (path bytes : List ℕ) (l : Local)
      → l.files path ≡ some bytes
      → (fclose host path l).files path ≡ some bytes
  unfolding fclose
  fclose-whole path bytes l e =
      rw
        (
          str_eq_refl path,
          e,
          working.flushed l.calls (length bytes),
          take-all (length bytes) bytes (le_refl _),
        )
        refl

  pub write_key_file-Wrote :
      (path : List ℕ) (parts : List (List ℕ)) (l : Local)
      → let (result, l₁) = write_key_file host path parts l in
        (result ≡ success) × (l₁.files path ≡ some (joined parts))
  unfolding write_key_file secure_file_permissions
  write_key_file-Wrote path parts l =
      let start : Local = put_file path (some []) (tick l) in
      let (written, holds) = write_parts-Wrote path parts [] start (rw (str_eq_refl path) refl) in
      let closed = fclose-whole path (joined parts) (write_parts host path parts start).1 holds in
      rw (working.created l.calls path, written) (refl, closed)

  -- Parts of these sizes at the head of the file are read back.
  pub read_parts-joined :
      (parts : List (List ℕ)) (rest : List ℕ) (l : Local)
      → (read_parts host (map length parts) (joined parts ++ rest) l).0 ≡ some parts
  unfolding read_parts
  read_parts-joined [] rest l = refl
  read_parts-joined (part ∷ parts) rest l =
      let n : min (host.reads l.calls (length part)) (length part) ≡ length part =
        omega (arith, working.read l.calls (length part)) in
      let same : (length part == length part) ≡ true = ground arith in
      rw
        (
          n,
          append_assoc part (joined parts) rest,
          take-append part (joined parts ++ rest) (length part) refl,
          same,
          drop-append part (joined parts ++ rest) (length part) refl,
          read_parts-joined parts rest (tick l),
        )
        refl

  pub create_keys_directory-success :
      (h : List ℕ) (l : Local)
      → host.home ≡ some h
      → length (keys_directory h) < host.path_max
      → (create_keys_directory host l).0 ≡ success
  unfolding create_keys_directory make_keys_directory
  create_keys_directory-success h l e fits =
      let test : leb host.path_max (length (keys_directory h)) ≡ false = ground arith in
      elim (Bool-cases (exists (keys_directory h) (tick l))) [
        | inl old ↦ rw (found_home h l e, test, old) refl
        | inr new ↦
            rw (found_home h l e, test, new, working.made (suc l.calls) (keys_directory h)) refl
      ]
