-- ===== src/Stat.antt =====
-- SERVER/src/CHANNEL/stat/CharacterStat.{h,cpp}, GetNeedExp of SERVER/src/CHANNEL/manager/LevelManager.cpp,
-- and ExpResult of SERVER/src/CHANNEL/packet/StatInfoPacket.h.
pub mod Exp
mod Tests
use ll2games_rpg.Prelude.{
  ℕ, zero, suc, ◌+◌, Bool, true, false, Option, none, some, if◌then◌else◌, ltb,
}
use ll2games_rpg.Prelude.Int.{ℤ, pos, negsuc, pos_part, ◌+ℤ◌, ◌-ℤ◌, leb_ℤ, ltb_ℤ}
use ll2games_rpg.Prelude.Dict.{Dict, lookup}

pub data BaseStatKind : Type 0 where
  e_str e_dex e_int e_luck : BaseStatKind

pub record BaseStat : Type 0 where
  pub str : ℤ
  pub dex : ℤ
  pub intel : ℤ
  pub luck : ℤ

pub record DerivedStat : Type 0 where
  pub max_hp : ℤ
  pub max_mp : ℤ

-- The source's `need_exp` field is only read by a getter that AddExp does not use.
pub record ExpStat : Type 0 where
  pub level : ℕ
  pub exp : ℤ

pub record CharacterStat : Type 0 where
  pub base : BaseStat
  pub derived : DerivedStat
  pub exp_stat : ExpStat
  pub cur_hp : ℤ
  pub cur_mp : ℤ
  pub remain_ap : ℕ

pub data RootJob : Type 0 where
  knight archer mage thief other_job : RootJob

pub get_main_sub_stat : RootJob → BaseStatKind × BaseStatKind
get_main_sub_stat knight = (e_str, e_dex)
get_main_sub_stat archer = (e_dex, e_str)
get_main_sub_stat mage = (e_int, e_luck)
get_main_sub_stat thief = (e_luck, e_dex)
get_main_sub_stat other_job = (e_str, e_dex)

pub get_stat_value : BaseStat → BaseStatKind → ℤ
get_stat_value s e_str = s.str
get_stat_value s e_dex = s.dex
get_stat_value s e_int = s.intel
get_stat_value s e_luck = s.luck

-- Up: the name of a stat, as its place in the table of names; `none` is a name that is not there.
pub up : Option BaseStatKind → CharacterStat → CharacterStat
up none c = record c { base = record c.base { str = c.base.str +ℤ pos 1 } }
up (some e_str) c = record c { base = record c.base { str = c.base.str +ℤ pos 1 } }
up (some e_dex) c = record c { base = record c.base { dex = c.base.dex +ℤ pos 1 } }
up (some e_int) c = record c { base = record c.base { intel = c.base.intel +ℤ pos 1 } }
up (some e_luck) c = record c { base = record c.base { luck = c.base.luck +ℤ pos 1 } }

-- `LevelManager::GetNeedExp` on its table.
pub get_need_exp : Dict ℤ → ℕ → ℤ
get_need_exp table level = elim (lookup level table) [ none ↦ pos 0 | some need ↦ need ]

-- The body of the loop after its two `break`s.
pub level_up : ℤ → CharacterStat → CharacterStat
level_up need c = record c {
  exp_stat = record { level = suc c.exp_stat.level; exp = c.exp_stat.exp -ℤ need };
  remain_ap = c.remain_ap + 5;
  cur_hp = c.derived.max_hp;
  cur_mp = c.derived.max_mp;
}

pub stays : Dict ℤ → CharacterStat → Bool
stays table c =
    let need = get_need_exp table c.exp_stat.level in
    if leb_ℤ need (pos 0) then true else ltb_ℤ c.exp_stat.exp need

-- `while (true)`, on fuel. `none` is a loop that the fuel did not end.
pub level_loop : ℕ → Dict ℤ → CharacterStat → Option CharacterStat
level_loop zero table c = if stays table c then some c else none
level_loop (suc fuel) table c =
    let rest = level_loop fuel table (level_up (get_need_exp table c.exp_stat.level) c) in
    if stays table c then some c else rest

-- Every turn takes 1 or more from the experience.
pub enough_fuel : CharacterStat → ℕ
enough_fuel c = pos_part c.exp_stat.exp

pub record ExpResult : Type 0 where
  pub gained_exp : ℤ
  pub old_level : ℕ
  pub new_level : ℕ
  pub cur_exp : ℤ
  pub need_exp : ℤ
  pub result_ap : ℕ
  pub result_hp : ℤ
  pub result_max_hp : ℤ
  pub result_mp : ℤ
  pub result_max_mp : ℤ
  pub is_level_up : Bool

pub no_result : ExpResult
no_result = record {
  gained_exp = pos 0;
  old_level = 0;
  new_level = 0;
  cur_exp = pos 0;
  need_exp = pos 0;
  result_ap = 0;
  result_hp = pos 0;
  result_max_hp = pos 0;
  result_mp = pos 0;
  result_max_mp = pos 0;
  is_level_up = false;
}

pub result_of : Dict ℤ → ℤ → ℕ → CharacterStat → ExpResult
result_of table exp old_level c = record {
  gained_exp = exp;
  old_level = old_level;
  new_level = c.exp_stat.level;
  cur_exp = c.exp_stat.exp;
  need_exp = get_need_exp table c.exp_stat.level;
  result_ap = c.remain_ap;
  result_hp = c.cur_hp;
  result_max_hp = c.derived.max_hp;
  result_mp = c.cur_mp;
  result_max_mp = c.derived.max_mp;
  is_level_up = ltb old_level c.exp_stat.level;
}

pub gain : ℤ → CharacterStat → CharacterStat
gain exp c = record c { exp_stat = record c.exp_stat { exp = c.exp_stat.exp +ℤ exp } }

pub add_exp : Dict ℤ → ℤ → CharacterStat → Option (CharacterStat × ExpResult)
add_exp table exp c =
    if leb_ℤ exp (pos 0)
    then some (c, no_result)
    else (let c1 = gain exp c in
        elim (level_loop (enough_fuel c1) table c1) [
          | none ↦ none
          | some c2 ↦ some (c2, result_of table exp c.exp_stat.level c2)
        ])
