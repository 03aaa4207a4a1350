-- ===== src/Commands/Sessions/Names.antt =====
-- A record that no command names stays.
use mysnapshotter.Prelude.{ℕ, Bool, false, Option, List, All, ◌≡◌, refl, Text, ◌==◌}
use mysnapshotter.Extractor.Maintaining.{IfOk}
use mysnapshotter.Store.Containerd.{Image}
use mysnapshotter.Store.Catalog.{Records, Catalog}
use mysnapshotter.Commands.{Host, World, Command}
use mysnapshotter.Commands.Steady.Running.{IsNaming}
use mysnapshotter.Commands.Sessions.{session, session_kept}
use mysnapshotter.Commands.Sessions.Records.{IsSeparate, IsClosed, records-IsSteady}

-- Another name.
abbrev pub IsOther : Text → Text → Type 0
IsOther n m = (n == m) ≡ false

-- The record under a name is this one, or none.
abbrev pub HasAt : Text → Option Image → Records → Type 0
HasAt n o r = r n ≡ o

HasAt-IsClosed : (n : Text) (o : Option Image) → IsClosed (IsOther n) (HasAt n o)
HasAt-IsClosed n o = record { set_closed = λ img r h j. rw h j; unset_closed = λ m r h j. rw h j }

module _ (H : Host) (L : Catalog H.containerd) (P : IsSeparate H L) where
  -- The command neither pulls a reference that may resolve to this name, nor commits to it, deletes it or
  -- imports an archive.
  abbrev pub IsSparing : Text → Command → Type 0
  IsSparing n =
      IsNaming (IsOther n) (λ ref.
        (tls : Bool) (w : World H) → IfOk (λ q. IsOther n q.0) (H.remote.resolve tls ref w).0)

  -- Whatever commands are run, and whether they succeed or fail: the record under a name, or that there is
  -- none, stays as it was if no command pulls, commits to or deletes that name and none imports an archive.
  pub session-spared :
      (n : Text) (rounds : ℕ) (root : Text) (cs : List Command) (w : World H)
      → All (IsSparing n) cs
      → L.view (session H rounds root cs w) n ≡ L.view w n
  session-spared n rounds root cs w h =
      session_kept H _ _ _
        (records-IsSteady H L P (IsOther n) (HasAt n (L.view w n)) (HasAt-IsClosed n (L.view w n)))
        rounds root cs w h refl
