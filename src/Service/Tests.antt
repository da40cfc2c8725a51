-- ===== src/Service/Tests.antt =====
-- A node that is reported at second 10, for five seconds.
use go_apla.Prelude.{ℕ, ◌≡◌, refl, true, false, List, [], ◌∷◌, arith}
use go_apla.Prelude.Int.{pos, ◌+ℤ◌, ◌<ℤ◌, ◌≤ℤ◌}
use go_apla.Prelude.Eq.{lookup}
use go_apla.Service.{
  FullNode, BanService, empty_key, key, Env, globally_banned, is_banned, new_bad_block,
  register_bad_block,
}
use go_apla.Service.Bans.{asking, Call, after_calls, AreBefore, ban_lasts, ban_ends}

abbrev node : FullNode
node = record { key_id = pos 7; tcp_address = "node"; unban_time = pos 0 }

abbrev at : ℕ → Env
at n = record {
  now = pos n;
  ban_now = pos n;
  nodes = node ∷ [];
  local_ban_time = pos 5;
  node_key = key;
  own_key_id = pos 7;
  sent = λ producer consumer. true;
}

abbrev nobody : BanService
nobody = record { local_banned = []; full_nodes = [] }

abbrev between : List Call
between = asking (at 12) node ∷ []

free : (is_banned (at 10) node nobody).0 ≡ false
unfolding is_banned globally_banned lookup
free = refl

between-AreBefore : AreBefore (pos 10 +ℤ pos 5) between
unfolding AreBefore ◌+ℤ◌
between-AreBefore = (omega arith, tt)

soon : pos 14 <ℤ pos 10 +ℤ pos 5
unfolding ◌+ℤ◌
soon = omega arith

late : pos 10 +ℤ pos 5 ≤ℤ pos 15
unfolding ◌+ℤ◌
late = omega arith

ban_lasts_example :
    (is_banned (at 14) node (after_calls between (register_bad_block (at 10) node nobody).1)).0
    ≡ true
ban_lasts_example = ban_lasts (at 10) (at 14) node nobody between free between-AreBefore soon

ban_ends_example :
    ((is_banned (at 15) node (after_calls between (register_bad_block (at 10) node nobody).1)).0
      ≡ false)
    × ((env'' : Env)
        → (is_banned env'' node
            (is_banned
              (at 15)
              node
              (after_calls between (register_bad_block (at 10) node nobody).1)).1).0
          ≡ globally_banned env''.nodes (node.key_id))
ban_ends_example = ban_ends (at 10) (at 15) node nobody between free between-AreBefore late

-- Without a key nothing is sent, and no error is returned.
no_key_no_error : (e : Env) → new_bad_block (record e { node_key = empty_key }) node nobody ≡ true
unfolding new_bad_block
no_key_no_error e = refl
