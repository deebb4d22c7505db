-- ===== src/Network/Closing.antt =====
-- What the end of a network module does to its clients.
use net_serve.Prelude.{
  ℕ, ◌||◌, ◌≡◌, ◌∙◌, ap, refl, Bool, true, false, none, some, List, [], ◌∷◌, if◌then◌else◌, arith,
  Bool-cases, inl, inr,
}
use net_serve.Network.{Server, has, close, close_all, module_stop}
use net_serve.Network.Clients.{IsValid}
use net_serve.Network.Handles.{Distinct}

-- One of the first list is in the second.
unfoldable pub meets : List ℕ → List ℕ → Bool
unfolding has
meets [] l = false
meets (c ∷ cs) l = let rest = meets cs l in if has c l then true else rest

-- The elements of the first list, one after the other, in front of the second.
unfoldable pub push_all : List ℕ → List ℕ → List ℕ
push_all [] l = l
push_all (c ∷ cs) l = push_all cs (c ∷ l)

meets-cons : (c : ℕ) (cs l : List ℕ) → has c cs ≡ false → meets cs (c ∷ l) ≡ meets cs l
unfolding has meets
meets-cons c [] l h = refl
meets-cons c (d ∷ cs) l h = ground (arith, h, meets-cons c cs l)

close_all_lem :
    (cs : List ℕ) (s : Server)
    → Distinct cs
    → close_all cs s
      ≡ (if meets cs s.closing then none else some (record s { closing = push_all cs s.closing }))
unfolding close_all close meets push_all
close_all_lem [] s d = refl
close_all_lem (c ∷ cs) s (h, d) = elim (Bool-cases (has c s.closing)) [
  | inl e ↦ rw (e, close_all) refl
  | inr e ↦
      rw (e, close_all)
        (close_all_lem cs (record s { closing = c ∷ s.closing }) d
          ∙ ap (λ b. if b then none else some (record s { closing = push_all cs (c ∷ s.closing) }))
              (meets-cons c cs s.closing h))
]

-- `network_module_stop` closes each client and the server's own handle, unless some client is closing
-- already, as after a broken connection whose close callback is still due, or the server is, as after
-- an earlier stop: then it calls `uv_close` a second time on that handle, which libuv does not allow.
pub module_stop_lem :
    (s : Server)
    → IsValid s
    → module_stop s ≡ (
        if meets s.table.clients s.closing || s.server_closing
        then none
        else some (record s {
          closing = push_all s.table.clients s.closing;
          listening = false;
          server_closing = true;
        }))
unfolding module_stop
module_stop_lem s v = ground (arith, close_all_lem s.table.clients s v.distinct)
