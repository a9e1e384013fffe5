-- ===== src/ClientServer/Heard.antt =====
-- What a server gets from one client of benchmarks/client_server.c.
use ssmp.Base.{ℕ, suc, ◌≤◌, ◌<◌, ◌≡◌, ◌≢◌, arith, List, [], ◌∷◌, if◌then◌else◌, ◌==◌}
use ssmp.ClientServer.{Sent}

-- the w0 of the messages that go to `d`, in their order
unfoldable pub heard : ℕ → List Sent → List ℕ
heard d [] = []
heard d (m ∷ ms) = if m.to == d then m.w0 ∷ heard d ms else heard d ms

unfoldable pub complaints : List Sent → ℕ
complaints [] = 0
complaints (m ∷ ms) = if m.complains then suc (complaints ms) else complaints ms

-- The last message is below `lim`, and no other is.
pub data Ends (lim : ℕ) : List ℕ → Type 0 where
  at_last : {w : ℕ} → w < lim → Ends lim (w ∷ [])
  not_yet : {w : ℕ} {ws : List ℕ} → lim ≤ w → Ends lim ws → Ends lim (w ∷ ws)

-- with `n` messages to go and `k` of them before the next one to a server
abbrev pub Hears : (lim n k : ℕ) → List ℕ → Type 0
Hears lim n k ws = (n ≤ k → ws ≡ []) × (k < n → Ends lim ws)

pub heard_here :
    (m : Sent) (d : ℕ) (ms : List Sent) → m.to ≡ d → heard d (m ∷ ms) ≡ m.w0 ∷ heard d ms
unfolding heard
heard_here m d ms e = ground arith

pub heard_elsewhere : (m : Sent) (d : ℕ) (ms : List Sent) → m.to ≢ d → heard d (m ∷ ms) ≡ heard d ms
unfolding heard
heard_elsewhere m d ms ne = ground arith
