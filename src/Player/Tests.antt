-- ===== src/Player/Tests.antt =====
-- A player with one skill.
use ll2games_rpg.Prelude.{false, none, [], ◌∷◌}
use ll2games_rpg.Prelude.Int.{pos}
use ll2games_rpg.Player.{Player, SkillDef, idle}

abbrev pub knight : Player
knight = record {
  state = idle;
  root_job = 1;
  learned_skills = (20001, 1) ∷ [];
  cooldown_end_ms = [];
  cur_hp = pos 50;
  max_hp = pos 80;
  cur_mp = pos 12;
  max_mp = pos 30;
  next_contact = none;
  contact_cooldown_ms = 1000;
}

abbrev pub slash : SkillDef
slash = record {
  skill_id = 20001;
  is_basic_attack = false;
  root_job = 1;
  mp_cost = pos 10;
  cooldown_ms = 3000;
}
