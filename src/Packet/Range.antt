-- ===== src/Packet/Range.antt =====
-- What a packet's hooks see while one of them unhooks itself.
use rhine.Slices.{take-length, take-append, drop-append, drop-suc, last_of, drop_more, drop-last}
use rhine.Packet.Hook.{PacketHook, index_of}
use rhine.Packet.Dispatch.{Handler, run_hooks, hook_wrapper}
use rhine.Packet.Shared.{
  range_hooks, live, Unhooker, Shared, share, remove_shared, remove_each, first_of, Ranged, call,
  range_from,
}
use rhine.Packet.Return.{Absent}
use rhine.Prelude.{
  sym, List, [], ◌∷◌, ◌++◌, ◌+◌, ◌-◌, ◌==◌, ℕ, suc, take, drop, length, length-append, Bytes, some,
  map, ◌≡◌, refl, ap, ◌∙◌, false, arith, eq_self,
}
use mathlib.Core.List.{append_assoc, append-nil}

module _ {S : Type 0} where
  -- The hook without what its handler unhooks.
  abbrev pub plain : PacketHook (Unhooker S) → PacketHook (Handler S)
  plain hook = record {
    id = hook.id;
    target = hook.target;
    priority = hook.priority;
    handler = λ op packet s. (hook.handler op packet s).0;
    module_name = hook.module_name;
  }

  -- No handler unhooks anything.
  abbrev pub AreQuiet : List (PacketHook (Unhooker S)) → Type 0
  AreQuiet [] = Unit
  AreQuiet (hook ∷ hooks) =
      ((op packet : Bytes) (s : S) → (hook.handler op packet s).1 ≡ []) × AreQuiet hooks

  abbrev ran : List (PacketHook (Unhooker S)) → Bytes → Ranged S → Ranged S
  ran hooks op r = record {
    state = (run_hooks (map plain hooks) op r.packet r.state).0;
    packet = (run_hooks (map plain hooks) op r.packet r.state).1;
    shared = r.shared;
  }

  -- A call, by what it unhooks.
  call-gone :
      (x : PacketHook (Unhooker S)) (ids : List ℕ) (op : Bytes) (r : Ranged S)
      → (x.handler op r.packet r.state).1 ≡ ids
      → call op (some x) r ≡ record (ran (x ∷ []) op r) { shared = remove_each ids r.shared }
  unfolding call run_hooks hook_wrapper
  call-gone x ids op r g =
      ap (λ ids. record (ran (x ∷ []) op r) { shared = remove_each ids r.shared }) g

  -- Rounds of the loop whose hooks unhook nothing.
  range_from-quiet :
      (xs behind : List (PacketHook (Unhooker S))) (k i : ℕ) (op : Bytes) (r : Ranged S)
      → drop i r.shared.array ≡ xs ++ behind
      → AreQuiet xs
      → range_from (length xs + k) i op r ≡ range_from k (i + length xs) op (ran xs op r)
  unfolding range_from run_hooks remove_each
  range_from-quiet [] behind k i op r e q =
      let n : 0 + k ≡ k = omega arith in
      let j : i ≡ i + 0 = omega arith in
      ap (λ n. range_from n i op r) n ∙ ap (λ i. range_from k i op r) j
  range_from-quiet (x ∷ xs) behind k i op r e (q, qs) =
      let n : suc (length xs) + k ≡ suc (length xs + k) = omega arith in
      let j : i + 1 + length xs ≡ i + suc (length xs) = omega arith in
      ap (λ n. range_from n i op r) n
      ∙ ap (λ hooks. range_from (length xs + k) (i + 1) op (call op (first_of hooks) r)) e
      ∙ ap (range_from (length xs + k) (i + 1) op) (call-gone x [] op r (q op r.packet r.state))
      ∙ range_from-quiet xs behind k (i + 1) op (ran (x ∷ []) op r)
          (drop-suc i r.shared.array x (xs ++ behind) e) qs
      ∙ ap (λ i. range_from k i op (ran (x ∷ xs) op r)) j

  index_of-Absent :
      (h : PacketHook (Unhooker S)) (before behind : List (PacketHook (Unhooker S)))
      → Absent h.id before
      → index_of h.id (before ++ h ∷ behind) ≡ length before
  unfolding index_of
  index_of-Absent h [] behind a = rw (eq_self h.id) refl
  index_of-Absent h (x ∷ before) behind (n, a) =
      let e = index_of-Absent h before behind a in rw (n, e) (omega arith)

  -- The array behind the removal: what was last stands there twice.
  removed :
      PacketHook (Unhooker S)
      → List (PacketHook (Unhooker S))
      → List (PacketHook (Unhooker S))
      → Shared (Unhooker S)
  removed h before behind = record {
    array = before ++ behind ++ last_of h behind ∷ [];
    len = length (before ++ h ∷ behind) - 1;
  }

  remove_shared-removed :
      (h : PacketHook (Unhooker S)) (before behind : List (PacketHook (Unhooker S)))
      → Absent h.id before
      → remove_shared h.id (share (before ++ h ∷ behind)) ≡ removed h before behind
  unfolding remove_shared removed
  remove_shared-removed h before behind a =
      let found : index_of h.id (take (length (before ++ h ∷ behind)) (before ++ h ∷ behind))
          ≡ length before =
        ap (index_of h.id) (take-length (before ++ h ∷ behind))
        ∙ index_of-Absent h before behind a in
      let short : (length before == length (before ++ h ∷ behind)) ≡ false =
        ground (arith, length-append before (h ∷ behind)) in
      rw
        (
          found,
          take-length (before ++ h ∷ behind),
          short,
          take-append before (h ∷ behind),
          drop_more before (h ∷ behind) 1,
          drop-last before h behind,
        )
        refl

  -- What the loop reads behind a hook that has unhooked itself: the first of the others is skipped,
  -- and the last one comes twice.
  abbrev pub shifted : List (PacketHook (Unhooker S)) → List (PacketHook (Unhooker S))
  shifted [] = []
  shifted (hook ∷ hooks) = hooks ++ last_of hook hooks ∷ []

  AreQuiet-shifted :
      (x : PacketHook (Unhooker S)) (xs : List (PacketHook (Unhooker S)))
      → AreQuiet (x ∷ xs)
      → AreQuiet (xs ++ last_of x xs ∷ [])
  AreQuiet-shifted x [] q = q
  AreQuiet-shifted x (y ∷ xs) (q, (q', qs)) = (q', AreQuiet-shifted y xs (q', qs))

  ran-append :
      (xs ys : List (PacketHook (Unhooker S))) (op : Bytes) (r : Ranged S)
      → ran (xs ++ ys) op r ≡ ran ys op (ran xs op r)
  unfolding run_hooks
  ran-append [] ys op r = refl
  ran-append (x ∷ xs) ys op r = ran-append xs ys op (ran (x ∷ []) op r)

  -- The rounds behind the removal.
  range_from-removed :
      (h : PacketHook (Unhooker S)) (before behind : List (PacketHook (Unhooker S))) (op : Bytes)
      (r : Ranged S)
      → r.shared ≡ removed h before behind
      → AreQuiet behind
      → range_from (length behind) (length before + 1) op r ≡ ran (shifted behind) op r
  unfolding range_from run_hooks removed
  range_from-removed h before [] op r e q = refl
  range_from-removed h before (b ∷ rest) op r e q =
      let n : suc (length rest) ≡ length (shifted (b ∷ rest)) + 0 =
        omega (arith, length-append rest (last_of b rest ∷ [])) in
      ap (λ n. range_from n (length before + 1) op r) n
      ∙ range_from-quiet (shifted (b ∷ rest)) [] 0 (length before + 1) op r
          (ap (λ (m : Shared (Unhooker S)). drop (length before + 1) m.array) e
            ∙ ap (drop (length before + 1))
                (append_assoc before (b ∷ rest) (last_of h (b ∷ rest) ∷ []))
            ∙ drop_more before (b ∷ shifted (b ∷ rest)) 1
            ∙ sym (append-nil (shifted (b ∷ rest))))
          (AreQuiet-shifted b rest q)

  range_hooks-removed :
      (h : PacketHook (Unhooker S)) (before behind : List (PacketHook (Unhooker S)))
      (op packet : Bytes) (s : S)
      → ((op packet : Bytes) (s : S) → (h.handler op packet s).1 ≡ h.id ∷ [])
      → Absent h.id before
      → AreQuiet before
      → AreQuiet behind
      → range_hooks op (before ++ h ∷ behind) packet s
        ≡ ran
            (before ++ h ∷ shifted behind)
            op
            (record { state = s; packet = packet; shared = removed h before behind })
  unfolding range_hooks range_from remove_each run_hooks
  range_hooks-removed h before behind op packet s self a q q' =
      let r : Ranged S = record {
        state = s;
        packet = packet;
        shared = share (before ++ h ∷ behind);
      } in
      let n = length-append before (h ∷ behind) in
      let i : 0 + length before ≡ length before = omega arith in
      let r₁ : Ranged S = ran before op r in
      ap (λ n. range_from n 0 op r) n
      ∙ range_from-quiet before (h ∷ behind) (suc (length behind)) 0 op r refl q
      ∙ ap (λ i. range_from (suc (length behind)) i op r₁) i
      ∙ ap
          (λ hooks. range_from (length behind) (length before + 1) op (call op (first_of hooks) r₁))
          (drop-append before (h ∷ behind))
      ∙ ap (range_from (length behind) (length before + 1) op) (
          call-gone h (h.id ∷ []) op r₁ (self op r₁.packet r₁.state)
          ∙ ap (λ m. record (ran (h ∷ []) op r₁) { shared = m })
              (remove_shared-removed h before behind a))
      ∙ range_from-removed h before behind op
          (record (ran (h ∷ []) op r₁) { shared = removed h before behind }) refl q'
      ∙ sym (
          ran-append before (h ∷ shifted behind) op
            (record { state = s; packet = packet; shared = removed h before behind }))

  live-removed :
      (h : PacketHook (Unhooker S)) (before behind : List (PacketHook (Unhooker S)))
      → live (removed h before behind) ≡ before ++ behind
  unfolding removed
  live-removed h before behind =
      let n : length (before ++ h ∷ behind) - 1 ≡ length (before ++ behind) =
        omega (arith, length-append before (h ∷ behind), length-append before behind) in
      ap (λ n. take n (before ++ behind ++ last_of h behind ∷ [])) n
      ∙ take-append (before ++ behind) (last_of h behind ∷ [])

  -- If one hook of a target unhooks itself when it is called, and the others unhook nothing, then a
  -- packet runs through the hooks up to that one, and then through those behind it without the
  -- first of them and with the last one twice. The slice that is left has all hooks but that one.
  pub range_hooks-shifts :
      (h : PacketHook (Unhooker S)) (before behind : List (PacketHook (Unhooker S)))
      (op packet : Bytes) (s : S)
      → ((op packet : Bytes) (s : S) → (h.handler op packet s).1 ≡ h.id ∷ [])
      → Absent h.id before
      → AreQuiet before
      → AreQuiet behind
      → ((range_hooks op (before ++ h ∷ behind) packet s).state
          ≡ (run_hooks (map plain (before ++ h ∷ shifted behind)) op packet s).0)
        × (live (range_hooks op (before ++ h ∷ behind) packet s).shared ≡ before ++ behind)
  range_hooks-shifts h before behind op packet s self a q q' =
      let e = range_hooks-removed h before behind op packet s self a q q' in
      (
        ap (λ (r : Ranged S). r.state) e,
        ap (λ (r : Ranged S). live r.shared) e ∙ live-removed h before behind,
      )
