-- ===== src/Extractor/System.antt =====
-- The calls of the operating system that pkg/extractor makes, and actions that can fail. What a
-- call answers is a parameter.
use mysnapshotter.Prelude.{
  ℕ, String, Bool, List, [], ◌∷◌, if◌then◌else◌, Text, Error, wrap, Result, ok, err,
}
use mysnapshotter.Prelude.Int.{ℤ}

pub data Syscall : Type 0 where
  mkdir_all : Text → ℕ → Syscall
  stat : Text → Syscall
  chmod : Text → ℕ → Syscall
  lchown : Text → ℤ → ℤ → Syscall
  utimes_nofollow : Text → ℤ → ℤ → Syscall
  lsetxattr : Text → Text → List ℕ → Syscall
  -- O_CREATE | O_WRONLY | O_TRUNC, with a mode.
  open_write : Text → ℕ → Syscall
  open_read : Text → Syscall
  write : Text → List ℕ → Syscall
  close : Text → Syscall
  remove : Text → Syscall
  symlink : Text → Text → Syscall
  link : Text → Text → Syscall
  mknod : Text → ℕ → ℕ → ℕ → Syscall
  mkfifo : Text → ℕ → Syscall
  -- `IoctlFileClone`, then `Seek` and `io.Copy`, and `Sync`; target before source.
  clone : Text → Text → Syscall
  seek_start : Text → Syscall
  copy : Text → Text → Syscall
  sync : Text → Syscall

-- What a call that succeeds tells: of `stat`, if it is a regular file.
pub data Reply : Type 0 where
  done : Reply
  regular : Bool → Reply

-- The classes of errors that the code tells apart.
pub record Os : Type 1 where
  pub World : Type 0
  pub call : Syscall → World → Result Reply × World
  pub is_not_exist : Error → Bool
  pub is_exist : Error → Bool
  pub is_clone_unsupported : Error → Bool

-- An action on the world that gives a value or an error.
abbrev pub M : Type 0 → Type 0 → Type 0
M W A = W → Result A × W

module _ {W : Type 0} where
  abbrev pub pure : {A : Type 0} → A → M W A
  pure a w = (ok a, w)

  abbrev pub fail : {A : Type 0} → Error → M W A
  fail e w = (err e, w)

  abbrev pub after : {A B : Type 0} → Result A × W → (A → M W B) → Result B × W
  after (ok a, w) f = f a w
  after (err e, w) f = (err e, w)

  infixl 5 ◌>>=◌ ◌>>◌
  abbrev pub ◌>>=◌ : {A B : Type 0} → M W A → (A → M W B) → M W B
  ◌>>=◌ m f w = after (m w) f

  abbrev pub ◌>>◌ : {A B : Type 0} → M W A → M W B → M W B
  ◌>>◌ m k = m >>= λ _. k

  abbrev pub lift : {A : Type 0} → Result A → M W A
  lift r w = (r, w)

  abbrev pub wrapped : {A : Type 0} → String → Result A × W → Result A × W
  wrapped s (ok a, w) = (ok a, w)
  wrapped s (err e, w) = (err (wrap s e), w)

  -- `fmt.Errorf(s + ": %w", err)` on the error of an action.
  abbrev pub named : {A : Type 0} → String → M W A → M W A
  named s m w = wrapped s (m w)

  abbrev pub settled : {A : Type 0} → Result A × W → Result (Result A) × W
  settled (r, w) = (ok r, w)

  -- The result of an action as a value, its error included.
  abbrev pub attempt : {A : Type 0} → M W A → M W (Result A)
  attempt m w = settled (m w)

  -- The loop over a list, until an action fails.
  unfoldable pub for_each : {A : Type 0} → List A → (A → M W (Unit {0})) → M W (Unit {0})
  for_each [] f = pure tt
  for_each (x ∷ xs) f = do f x; for_each xs f

module _ (O : Os) where
  abbrev pub issue : Syscall → M O.World Reply
  issue = O.call

  -- `os.Remove`, where a missing file is no error.
  unfoldable pub remove_if_exists : Text → M O.World (Unit {0})
  remove_if_exists path = do
    r ← attempt (issue (remove path))
    (elim r [ ok _ ↦ pure tt | err e ↦ if O.is_not_exist e then pure tt else fail e ])
