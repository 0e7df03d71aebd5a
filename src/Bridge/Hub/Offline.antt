-- ===== src/Bridge/Hub/Offline.antt =====
-- Tasks that do nothing on the mesh.
use matrix_meshtastic.Prelude.{◌≡◌, refl, ◌∙◌, Option, none, some}
use matrix_meshtastic.Bridge.Hub.{Hub, Task, continue, ◌>>=◌}

pub record IsOffline {A : Type 0} (m : Task A) : Type 0 where
  pub same : (h : Hub) → (m h).1.world ≡ h.world

continue-IsOffline :
    {A B : Type 0} (found : Option A) (f : A → Task B)
    → ((a : A) → IsOffline (f a))
    → IsOffline (continue found f)
continue-IsOffline none f k = record { same = λ h. refl }
continue-IsOffline (some a) f k = k a

pub bind-IsOffline :
    {A B : Type 0} (m : Task A) (f : A → Task B)
    → IsOffline m
    → ((a : A) → IsOffline (f a))
    → IsOffline (m >>= f)
unfolding ◌>>=◌
bind-IsOffline m f d k = record {
  same = λ h. (continue-IsOffline (m h).0 f k).same (m h).1 ∙ d.same h;
}
