-- ===== src/Calls/Requests/Mediated.antt =====
-- The path names that the host is called with, in a sequence of requests.
use iamroot.Base.{ℕ, ◌≡◌, List, [], ◌∷◌}
use iamroot.Calls.{Host, Proc, Ran, back, crashed, stuck}
use iamroot.Calls.Requests.{Request}
use iamroot.Calls.Requests.Made.{Made}

module _ (rounds : ℕ) (h : Host) where
  -- The program made these requests one after the other, from the state p on, which left q.
  abbrev pub History : List Request → Proc → Proc → Type 0
  History [] p q = p ≡ q
  History (r ∷ rs) p q = (m : Proc) × Made rounds h r p m.log × History rs m q

  -- If there is a result, this is so of the state that is left.
  abbrev Leads : List Request → Proc → Ran ℕ → Type 0
  Leads rs p (back n q) = History rs p q
  Leads rs p crashed = Unit
  Leads rs p stuck = Unit
