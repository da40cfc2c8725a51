-- ===== src/Service.antt =====
-- The bans of nodes that made bad blocks: packages/service/node_ban.go. A time.Time is an integer of
-- nanoseconds; the clock, the list of nodes of syspar and what sends a transaction are arguments.
pub mod Bans
mod Tests
use Prim.Native.String.{String}
use go_apla.Prelude.{
  ℕ, Bool, true, false, not, ◌||◌, Option, none, some, List, [], ◌∷◌, ◌++◌, if◌then◌else◌,
}
use go_apla.Prelude.Int.{ℤ, pos, ◌+ℤ◌, ltb_ℤ, ◌==ℤ◌}
use go_apla.Prelude.Eq.{int_eq, lookup, insert, erase}

-- FullNode, as far as bans read it.
pub record FullNode : Type 0 where
  pub key_id : ℤ
  pub tcp_address : String
  pub unban_time : ℤ

-- localBannedNode
pub record LocalBan : Type 0 where
  pub full_node : FullNode
  pub local_unban_time : ℤ

pub record BanService : Type 0 where
  pub local_banned : List (ℤ × LocalBan)
  pub full_nodes : List FullNode

-- GetNodePrivateKey: an error, no key, or a key.
pub data NodeKey : Type 0 where
  unreadable : NodeKey
  empty_key : NodeKey
  key : NodeKey

-- What a call finds around it: the clock, and the clock again when a ban is set.
pub record Env : Type 0 where
  pub now : ℤ
  pub ban_now : ℤ
  pub nodes : List FullNode
  pub local_ban_time : ℤ
  pub node_key : NodeKey
  pub own_key_id : ℤ
  pub sent : ℤ → ℤ → Bool

unfoldable pub refresh_nodes : Env → BanService → BanService
refresh_nodes env s = record s { full_nodes = env.nodes }

unfoldable pub init_nodes_ban_service : Env → BanService
unfolding refresh_nodes
init_nodes_ban_service env = refresh_nodes env (record { local_banned = []; full_nodes = [] })

-- The loop over the nodes: the first one with the key tells, by a time of unban that is not 0.
unfoldable pub globally_banned : List FullNode → ℤ → Bool
globally_banned [] k = false
globally_banned (fn ∷ fns) k =
    let rest = globally_banned fns k in
    if fn.key_id ==ℤ k then not (fn.unban_time ==ℤ pos 0) else rest

-- The answer from a local ban, or from the nodes without one.
unfoldable pub answer : Env → ℤ → BanService → Option LocalBan → Bool × BanService
unfolding globally_banned
answer env k s none = (globally_banned s.full_nodes k, s)
answer env k s (some ban) =
    if not (ltb_ℤ env.now ban.local_unban_time)
    then (false, record s { local_banned = erase k s.local_banned })
    else (true, s)

unfoldable pub is_banned : Env → FullNode → BanService → Bool × BanService
unfolding refresh_nodes answer
is_banned env node s =
    answer env (node.key_id) (refresh_nodes env s) (lookup (node.key_id) s.local_banned)

unfoldable pub local_ban : Env → FullNode → BanService → BanService
local_ban env node s = record s {
  local_banned =
      insert (node.key_id)
        (record { full_node = node; local_unban_time = env.ban_now +ℤ env.local_ban_time })
        s.local_banned;
}

-- The key of the node that runs, 0 where it is not in the list.
unfoldable pub current_node : List FullNode → ℤ → ℤ
current_node [] own = pos 0
current_node (fn ∷ fns) own =
    let rest = current_node fns own in if fn.key_id ==ℤ own then fn.key_id else rest

-- Whether the error is nil; a missing key is not an error.
unfoldable pub new_bad_block : Env → FullNode → BanService → Bool
unfolding current_node
new_bad_block env producer s =
    let own = current_node s.full_nodes env.own_key_id in
    elim env.node_key [
      | unreadable ↦ false
      | empty_key ↦ true
      | key ↦ (if own ==ℤ pos 0 then false else env.sent (producer.key_id) own)
    ]

unfoldable pub register_new : Env → FullNode → Bool × BanService → Bool × BanService
unfolding local_ban new_bad_block
register_new env node (true, s) = (true, s)
register_new env node (false, s) =
    let banned = local_ban env node s in (new_bad_block env node banned, banned)

-- RegisterBadBlock with no other call between its locks: whether the error is nil, and the bans after
-- it.
unfoldable pub register_bad_block : Env → FullNode → BanService → Bool × BanService
unfolding register_new is_banned
register_bad_block env node s = register_new env node (is_banned env node s)

unfoldable pub keep_host : String → Bool × BanService → List String → List String × BanService
keep_host address (true, s) good = (good, s)
keep_host address (false, s) good = (good ++ address ∷ [], s)

-- FilterBannedHosts: `none` with the first host that is no node. Each call has its own clock.
unfoldable pub filter_hosts :
    (String → Option FullNode)
    → List (String × Env)
    → List String
    → BanService
    → Option (List String) × BanService
unfolding keep_host is_banned
filter_hosts node_of [] good s = (some good, s)
filter_hosts node_of ((h, env) ∷ hs) good s = elim (node_of h) [
  | none ↦ (none, s)
  | some n ↦
      (let kept = keep_host (n.tcp_address) (is_banned env n s) good in
        filter_hosts node_of hs kept.0 kept.1)
]
