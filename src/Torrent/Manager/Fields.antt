-- ===== src/Torrent/Manager/Fields.antt =====
-- What storing a row and telling the hook worker leave alone.
use rd_rs.Prelude.{◌≡◌, refl, Bool, true, false, Option, none, some, List, [], ◌∷◌, String}
use rd_rs.Db.{Torrents}
use rd_rs.Torrent.Manager.{Manager, stored, triggered}

pub torrents-stored :
    (works : Bool) (t : Option Torrents) (m : Manager) → (stored works t m).1.torrents ≡ m.torrents
torrents-stored true none m = refl
torrents-stored true (some t) m = refl
torrents-stored false t m = refl

pub jobs-stored :
    (works : Bool) (t : Option Torrents) (m : Manager) → (stored works t m).1.jobs ≡ m.jobs
jobs-stored true none m = refl
jobs-stored true (some t) m = refl
jobs-stored false t m = refl

pub torrents-triggered :
    (ps : List String) (r : Bool × Manager) → (triggered ps r).1.torrents ≡ r.1.torrents
torrents-triggered [] r = refl
torrents-triggered (p ∷ ps) (true, m) = refl
torrents-triggered (p ∷ ps) (false, m) = refl

pub jobs-triggered : (ps : List String) (r : Bool × Manager) → (triggered ps r).1.jobs ≡ r.1.jobs
jobs-triggered [] r = refl
jobs-triggered (p ∷ ps) (true, m) = refl
jobs-triggered (p ∷ ps) (false, m) = refl
