-- ===== src/Protocol/Messages/Skill.antt =====
-- internal/protocol/catalog_gen.go: the messages of the skills and buffs.
use rom_server_poc.Prelude.{[], ◌∷◌}
use rom_server_poc.Protocol.Catalog.{Message, field}

abbrev pub s2c_buff_add_noti : Message
s2c_buff_add_noti = record {
  name = "S2C_BuffAddNoti";
  dir = "S2C";
  id = 0x392D6325;
  fields = field "m_actorOID" "System.Int64" ∷ field "m_buffData" "Protocol.BuffData" ∷ [];
}

abbrev pub s2c_buff_del_noti : Message
s2c_buff_del_noti = record {
  name = "S2C_BuffDelNoti";
  dir = "S2C";
  id = 0x345E016A;
  fields =
      field "m_actorOID" "System.Int64"
      ∷ field "m_buffIndex" "System.Int32"
      ∷ field "m_isWorld" "System.Boolean"
      ∷ [];
}

abbrev pub c2s_buff_list : Message
c2s_buff_list = record { name = "C2S_BuffList"; dir = "C2S"; id = 0x293E09EA; fields = [] }

abbrev pub s2c_buff_list : Message
s2c_buff_list = record {
  name = "S2C_BuffList";
  dir = "S2C";
  id = 0x205FAE8F;
  fields =
      field "m_playerOID" "System.Int64"
      ∷ field "m_buffDataList" "System.Collections.Generic.List<Protocol.BuffData>"
      ∷ [];
}

abbrev pub c2s_skill_casting : Message
c2s_skill_casting = record {
  name = "C2S_SkillCasting";
  dir = "C2S";
  id = 0x14580630;
  fields =
      field "m_skillIndex" "System.Int32"
      ∷ field "m_targetOID" "System.Int64"
      ∷ field "m_pos" "Protocol.Vector"
      ∷ field "m_dir" "System.Single"
      ∷ [];
}

abbrev pub s2c_skill_casting : Message
s2c_skill_casting = record {
  name = "S2C_SkillCasting";
  dir = "S2C";
  id = 0x379EBEBC;
  fields = field "m_result" "System.Int32" ∷ field "m_skillIndex" "System.Int32" ∷ [];
}

abbrev pub s2c_skill_casting_noti : Message
s2c_skill_casting_noti = record {
  name = "S2C_SkillCastingNoti";
  dir = "S2C";
  id = 0x0E0965DF;
  fields =
      field "m_success" "System.Int32"
      ∷ field "m_casterOID" "System.Int64"
      ∷ field "m_targetOID" "System.Int64"
      ∷ field "m_pos" "Protocol.Vector"
      ∷ field "m_dir" "System.Single"
      ∷ field "m_skillIndex" "System.Int32"
      ∷ field "m_skillLevel" "System.Int32"
      ∷ field "m_skillTableKind" "System.Byte"
      ∷ field "m_castingTime" "System.Int32"
      ∷ field "m_weaponType" "System.Int32"
      ∷ [];
}

abbrev pub s2c_skill_get_noti : Message
s2c_skill_get_noti = record {
  name = "S2C_SkillGetNoti";
  dir = "S2C";
  id = 0x0D5D0928;
  fields = field "m_playerOID" "System.Int64" ∷ field "m_skillData" "Protocol.SkillData" ∷ [];
}

abbrev pub c2s_skill_level_up : Message
c2s_skill_level_up = record {
  name = "C2S_SkillLevelUp";
  dir = "C2S";
  id = 0x31BF1C12;
  fields = field "m_skillIndex" "System.Int32" ∷ field "m_belongType" "System.Byte" ∷ [];
}

abbrev pub s2c_skill_level_up : Message
s2c_skill_level_up = record {
  name = "S2C_SkillLevelUp";
  dir = "S2C";
  id = 0x2F88CCAA;
  fields =
      field "m_result" "System.Int32"
      ∷ field "m_skillData" "Protocol.SkillData"
      ∷ field "m_isSuccess" "System.Boolean"
      ∷ [];
}

abbrev pub c2s_skill_use : Message
c2s_skill_use = record {
  name = "C2S_SkillUse";
  dir = "C2S";
  id = 0x28B80A37;
  fields =
      field "m_skillIndex" "System.Int32"
      ∷ field "m_targetOID" "System.Int64"
      ∷ field "m_pos" "Protocol.Vector"
      ∷ field "m_dir" "System.Single"
      ∷ field "m_areaSkillTargetKind" "System.Int32"
      ∷ [];
}

abbrev pub s2c_skill_use : Message
s2c_skill_use = record {
  name = "S2C_SkillUse";
  dir = "S2C";
  id = 0x2A89FAA1;
  fields =
      field "m_result" "System.Int32"
      ∷ field "m_skillIndex" "System.Int32"
      ∷ field "m_targetOID" "System.Int64"
      ∷ field "m_targetPos" "Protocol.Vector"
      ∷ [];
}

abbrev pub s2c_skill_use_notice : Message
s2c_skill_use_notice = record {
  name = "S2C_SkillUseNotice";
  dir = "S2C";
  id = 0x1C7467B7;
  fields =
      field "m_success" "System.Int32"
      ∷ field "m_casterOID" "System.Int64"
      ∷ field "m_targetOID" "System.Int64"
      ∷ field "m_weaponType" "System.Int32"
      ∷ field "m_pos" "Protocol.Vector"
      ∷ field "m_dir" "System.Single"
      ∷ field "m_attackSpeed" "System.Single"
      ∷ field "m_skillIndex" "System.Int32"
      ∷ field "m_skillLevel" "System.Int32"
      ∷ field "m_skillTableKind" "System.Byte"
      ∷ field "m_effectValue" "System.Collections.Generic.List<Protocol.SkillEffectValue>"
      ∷ field "m_mapIndex" "System.Int32"
      ∷ field "m_fHitTime" "System.Single"
      ∷ field "m_nHitCount" "System.Int32"
      ∷ field "m_targetPosition" "Protocol.Vector"
      ∷ field "m_chaoExpiredTime" "System.Int64"
      ∷ [];
}
