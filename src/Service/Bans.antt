-- ===== src/Service/Bans.antt =====
-- How long a ban lasts, whatever is asked and reported in between.
use go_apla.Prelude.{
  ◌≡◌, ◌≢◌, inl, inr, refl, sym, ap, ◌∙◌, Bool, true, false, not, none, some, List, [], ◌∷◌,
  if_true, if_false, Bool-cases, Option-cases, arith,
}
use go_apla.Prelude.Int.{ℤ, ◌+ℤ◌, ltb_ℤ, ◌==ℤ◌, ◌<ℤ◌, ◌≤ℤ◌}
use go_apla.Prelude.Eq.{int_eq, ==ℤ_iff, lookup, insert, erase, lookup-insert, lookup-erase}
use go_apla.Service.{
  FullNode, LocalBan, BanService, Env, refresh_nodes, globally_banned, is_banned, answer, local_ban,
  register_new, register_bad_block,
}

-- What is asked of the service.
pub data Call : Type 0 where
  asking : Env → FullNode → Call
  reporting : Env → FullNode → Call

unfoldable pub after_call : Call → BanService → BanService
unfolding is_banned register_bad_block
after_call (asking env node) s = (is_banned env node s).1
after_call (reporting env node) s = (register_bad_block env node s).1

unfoldable pub after_calls : List Call → BanService → BanService
unfolding after_call
after_calls [] s = s
after_calls (c ∷ cs) s = after_calls cs (after_call c s)

abbrev pub IsBefore : ℤ → Call → Type 0
IsBefore t (asking env node) = env.now <ℤ t
IsBefore t (reporting env node) = env.now <ℤ t

-- All calls come before a time.
unfoldable pub AreBefore : ℤ → List Call → Type 0
AreBefore t [] = Unit {0}
AreBefore t (c ∷ cs) = IsBefore t c × AreBefore t cs

-- A ban of a key until a time.
unfoldable pub IsLocal : ℤ → ℤ → BanService → Type 0
IsLocal k t s =
    (ban : LocalBan) × (lookup k (s.local_banned) ≡ some ban) × (ban.local_unban_time ≡ t)

some_injective : {A : Type 0} {a b : A} → some a ≡ some b → a ≡ b
some_injective h = ground arith

int_other : (k j : ℤ) → k ≢ j → (k ==ℤ j) ≡ false
int_other k j h = elim (Bool-cases (k ==ℤ j)) [ inl e ↦ absurd (h ((==ℤ_iff k j).0 e)) | inr e ↦ e ]

not_over : (a t u : ℤ) → a <ℤ t → ltb_ℤ a u ≡ false → u ≢ t
not_over a t u h e f = ground (arith, ap (ltb_ℤ a) f)

sooner : (a t u : ℤ) → a <ℤ t → u ≡ t → ltb_ℤ a u ≡ true
sooner a t u h e = ap (ltb_ℤ a) e ∙ ground arith

-- The three cases of IsBanned.
asked_none :
    (env : Env) (node : FullNode) (s : BanService)
    → lookup (node.key_id) (s.local_banned) ≡ none
    → is_banned env node s ≡ (globally_banned env.nodes (node.key_id), refresh_nodes env s)
unfolding is_banned refresh_nodes answer
asked_none env node s h = ap (answer env (node.key_id) (refresh_nodes env s)) h

asked_over :
    (env : Env) (node : FullNode) (s : BanService) (ban : LocalBan)
    → lookup (node.key_id) (s.local_banned) ≡ some ban
    → ltb_ℤ env.now ban.local_unban_time ≡ false
    → is_banned env node s ≡ (
      false,
      record s { full_nodes = env.nodes; local_banned = erase (node.key_id) (s.local_banned) },
    )
unfolding is_banned refresh_nodes answer
asked_over env node s ban h e =
    ap (answer env (node.key_id) (refresh_nodes env s)) h ∙ if_true _ (ap not e)

asked_banned :
    (env : Env) (node : FullNode) (s : BanService) (ban : LocalBan)
    → lookup (node.key_id) (s.local_banned) ≡ some ban
    → ltb_ℤ env.now ban.local_unban_time ≡ true
    → is_banned env node s ≡ (true, refresh_nodes env s)
unfolding is_banned refresh_nodes answer
asked_banned env node s ban h e =
    ap (answer env (node.key_id) (refresh_nodes env s)) h ∙ if_false _ (ap not e)

erase_other : (k j : ℤ) (m : List (ℤ × LocalBan)) → k ≢ j → lookup j (erase k m) ≡ lookup j m
erase_other k j m h = lookup-erase k j m ∙ if_false none (int_other k j h)

erase_same : (k : ℤ) (m : List (ℤ × LocalBan)) → lookup k (erase k m) ≡ none
erase_same k m = lookup-erase k k m ∙ if_true (lookup k m) ((==ℤ_iff k k).1 refl)

-- A question before the end of a ban leaves it.
asked-IsLocal :
    (k t : ℤ) (env : Env) (node : FullNode) (s : BanService)
    → env.now <ℤ t
    → IsLocal k t s
    → IsLocal k t (is_banned env node s).1
unfolding IsLocal refresh_nodes
asked-IsLocal k t env node s h l = elim (Option-cases (lookup (node.key_id) (s.local_banned))) [
  | inl n ↦ (l.0, ap (λ r. lookup k (r.1).local_banned) (asked_none env node s n) ∙ l.1, l.2)
  | inr found ↦ elim (Bool-cases (ltb_ℤ env.now (found.0).local_unban_time)) [
    | inl e ↦ (
      l.0,
      ap (λ r. lookup k (r.1).local_banned) (asked_banned env node s found.0 found.1 e) ∙ l.1,
      l.2,
    )
    | inr e ↦
        let other : node.key_id ≢ k = λ same. not_over env.now t (found.0).local_unban_time h e (
          ap LocalBan.local_unban_time
            (some_injective (sym found.1 ∙ ap (λ j. lookup j (s.local_banned)) same ∙ l.1))
          ∙ l.2) in
        (
          l.0,
          ap (λ r. lookup k (r.1).local_banned) (asked_over env node s found.0 found.1 e)
              ∙ erase_other (node.key_id) k s.local_banned other
              ∙ l.1,
          l.2,
        )
  ]
]

-- A node with a ban is banned before its end.
asked_before :
    (k t : ℤ) (env : Env) (node : FullNode) (s : BanService)
    → node.key_id ≡ k
    → env.now <ℤ t
    → IsLocal k t s
    → (is_banned env node s).0 ≡ true
unfolding IsLocal
asked_before k t env node s same h l =
    ap (λ r. r.0)
      (asked_banned env node s l.0 (ap (λ j. lookup j (s.local_banned)) same ∙ l.1)
        (sooner env.now t _ h l.2))

insert_other :
    (j k : ℤ) (ban : LocalBan) (m : List (ℤ × LocalBan))
    → j ≢ k
    → lookup k (insert j ban m) ≡ lookup k m
insert_other j k ban m h = lookup-insert j k ban m ∙ if_false (some ban) (int_other j k h)

-- A report of another node leaves a ban, and one of the same node changes nothing before its end.
register_keeps :
    (k t : ℤ) (env : Env) (node : FullNode) (r : Bool × BanService)
    → IsLocal k t r.1
    → (r.0 ≡ false → node.key_id ≢ k)
    → IsLocal k t (register_new env node r).1
unfolding IsLocal register_new local_ban
register_keeps k t env node (true, s) l other = l
register_keeps k t env node (false, s) l other =
    (l.0, insert_other (node.key_id) k _ s.local_banned (other refl) ∙ l.1, l.2)

true-false : {b : Bool} → b ≡ true → b ≡ false → ⊥
true-false h k = ground arith

after_call-IsLocal :
    (k t : ℤ) (c : Call) (s : BanService)
    → IsBefore t c
    → IsLocal k t s
    → IsLocal k t (after_call c s)
unfolding after_call register_bad_block
after_call-IsLocal k t (asking env node) s h l = asked-IsLocal k t env node s h l
after_call-IsLocal k t (reporting env node) s h l =
    register_keeps k t env node (is_banned env node s) (asked-IsLocal k t env node s h l)
      (λ e same. true-false (asked_before k t env node s same h l) e)

after_calls-IsLocal :
    (k t : ℤ) (cs : List Call) (s : BanService)
    → AreBefore t cs
    → IsLocal k t s
    → IsLocal k t (after_calls cs s)
unfolding after_calls AreBefore
after_calls-IsLocal k t [] s h l = l
after_calls-IsLocal k t (c ∷ cs) s h l =
    after_calls-IsLocal k t cs (after_call c s) h.1 (after_call-IsLocal k t c s h.0 l)

register_new-IsLocal :
    (env : Env) (node : FullNode) (r : Bool × BanService)
    → r.0 ≡ false
    → IsLocal (node.key_id) (env.ban_now +ℤ env.local_ban_time) (register_new env node r).1
unfolding IsLocal register_new local_ban
register_new-IsLocal env node (true, s) h = ground arith
register_new-IsLocal env node (false, s) h = (
  record { full_node = node; local_unban_time = env.ban_now +ℤ env.local_ban_time },
  lookup-insert (node.key_id) (node.key_id) _ s.local_banned
      ∙ if_true _ ((==ℤ_iff (node.key_id) (node.key_id)).1 refl),
  refl,
)

banned_then :
    (env : Env) (node : FullNode) (s : BanService) (cs : List Call)
    → (is_banned env node s).0 ≡ false
    → AreBefore (env.ban_now +ℤ env.local_ban_time) cs
    → IsLocal
        (node.key_id)
        (env.ban_now +ℤ env.local_ban_time)
        (after_calls cs (register_bad_block env node s).1)
unfolding register_bad_block
banned_then env node s cs free h =
    after_calls-IsLocal _ _ cs _ h (register_new-IsLocal env node (is_banned env node s) free)

-- A node that is not banned when its bad block is reported is banned after that, whatever is asked
-- and reported of any nodes in between, as long as all of it and the question come before the end of
-- the local ban.
pub ban_lasts :
    (env env' : Env) (node : FullNode) (s : BanService) (cs : List Call)
    → (is_banned env node s).0 ≡ false
    → AreBefore (env.ban_now +ℤ env.local_ban_time) cs
    → env'.now <ℤ env.ban_now +ℤ env.local_ban_time
    → (is_banned env' node (after_calls cs (register_bad_block env node s).1)).0 ≡ true
ban_lasts env env' node s cs free h k =
    asked_before (node.key_id) _ env' node _ refl k (banned_then env node s cs free h)

over : (a t u : ℤ) → t ≤ℤ a → u ≡ t → ltb_ℤ a u ≡ false
over a t u h e = ap (ltb_ℤ a) e ∙ ground arith

-- A node that is not banned when its bad block is reported is answered to be free by the first
-- question of it from the end of the local ban on, after calls before that end; all questions of it
-- right after that one are answered by the list of nodes alone.
pub ban_ends :
    (env env' : Env) (node : FullNode) (s : BanService) (cs : List Call)
    → (is_banned env node s).0 ≡ false
    → AreBefore (env.ban_now +ℤ env.local_ban_time) cs
    → env.ban_now +ℤ env.local_ban_time ≤ℤ env'.now
    → ((is_banned env' node (after_calls cs (register_bad_block env node s).1)).0 ≡ false)
      × ((env'' : Env)
          → (is_banned env'' node
              (is_banned env' node (after_calls cs (register_bad_block env node s).1)).1).0
            ≡ globally_banned env''.nodes (node.key_id))
unfolding IsLocal
ban_ends env env' node s cs free h k =
    let later = after_calls cs (register_bad_block env node s).1 in
    let l = banned_then env node s cs free h in
    let ended = asked_over env' node later l.0 l.1 (over env'.now _ _ k l.2) in
    (
      ap (λ r. r.0) ended,
      λ env''.
          ap (λ r. r.0)
            (asked_none env'' node _ (
              ap (λ r. lookup (node.key_id) (r.1).local_banned) ended
              ∙ erase_same (node.key_id) later.local_banned)),
    )
