-- ===== src/Ipc/Link/Queries.antt =====
-- The three queries of the healthy links agree with one another and with the links.
use some_server.Base.{ℕ, ◌≡◌, refl, Bool, true, false, List, [], ◌∷◌, arith, if◌then◌else◌, is_some}
use some_server.Base.Table.{Table}
use some_server.Ipc.Types.{ProcessRef, process_ref_eq}
use some_server.Ipc.Link.{
  LinkManager, Link, has_healthy_direct_link, get_healthy_links, find_connection, any_healthy,
  active_remotes, first_connection,
}

abbrev pub holds : ProcessRef → List ProcessRef → Bool
holds p [] = false
holds p (q ∷ qs) = if process_ref_eq q p then true else holds p qs

any_healthy-first :
    (target : ProcessRef) (ls : Table ℕ Link)
    → any_healthy target ls ≡ is_some (first_connection target ls)
any_healthy-first target [] = refl
any_healthy-first target ((c, l) ∷ ls) = ground (arith, any_healthy-first target ls)

holds-active_remotes :
    (target : ProcessRef) (ls : Table ℕ Link)
    → holds target (active_remotes ls) ≡ any_healthy target ls
holds-active_remotes target [] = refl
holds-active_remotes target ((c, l) ∷ ls) = ground (arith, holds-active_remotes target ls)

-- A process has a healthy link exactly when a connection to it is found, and exactly when it
-- stands among the healthy links.
pub queries_agree :
    (m : LinkManager) (target : ProcessRef)
    → (has_healthy_direct_link m target ≡ is_some (find_connection m target))
      × (holds target (get_healthy_links m) ≡ has_healthy_direct_link m target)
unfolding has_healthy_direct_link find_connection get_healthy_links
queries_agree m target = (any_healthy-first target m.links, holds-active_remotes target m.links)
