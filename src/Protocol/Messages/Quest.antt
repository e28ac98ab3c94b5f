-- ===== src/Protocol/Messages/Quest.antt =====
-- internal/protocol/catalog_gen.go: the messages of the quests.
use rom_server_poc.Prelude.{[], ◌∷◌}
use rom_server_poc.Protocol.Catalog.{Message, field}

abbrev pub c2s_quest_action : Message
c2s_quest_action = record {
  name = "C2S_QuestAction";
  dir = "C2S";
  id = 0x0110EF73;
  fields =
      field "m_questType" "System.Byte"
      ∷ field "m_questIndex" "System.Int32"
      ∷ field "m_actionType" "System.Byte"
      ∷ [];
}

abbrev pub s2c_quest_action : Message
s2c_quest_action = record {
  name = "S2C_QuestAction";
  dir = "S2C";
  id = 0x169B50C6;
  fields =
      field "m_result" "System.Int32"
      ∷ field "m_questType" "System.Byte"
      ∷ field "m_questIndex" "System.Int32"
      ∷ field "m_actionType" "System.Byte"
      ∷ field "m_rewardList" "System.Collections.Generic.List<Protocol.RewardData>"
      ∷ [];
}

abbrev pub s2c_quest_add_list : Message
s2c_quest_add_list = record {
  name = "S2C_QuestAddList";
  dir = "S2C";
  id = 0x38139A4F;
  fields = field "m_questList" "System.Collections.Generic.List<Protocol.QuestData>" ∷ [];
}

abbrev pub c2s_quest_complete_immediately : Message
c2s_quest_complete_immediately = record {
  name = "C2S_QuestCompleteImmediately";
  dir = "C2S";
  id = 0x2BC7D3D3;
  fields = field "m_questType" "System.Byte" ∷ field "m_isUseItem" "System.Boolean" ∷ [];
}

abbrev pub s2c_quest_complete_immediately : Message
s2c_quest_complete_immediately = record {
  name = "S2C_QuestCompleteImmediately";
  dir = "S2C";
  id = 0x1D224C42;
  fields =
      field "m_result" "System.Int32"
      ∷ field "m_questType" "System.Byte"
      ∷ field "m_isUseItem" "System.Boolean"
      ∷ [];
}

abbrev pub c2s_quest_list : Message
c2s_quest_list = record {
  name = "C2S_QuestList";
  dir = "C2S";
  id = 0x1F851436;
  fields = field "m_questType" "System.Byte" ∷ [];
}

abbrev pub s2c_quest_list : Message
s2c_quest_list = record {
  name = "S2C_QuestList";
  dir = "S2C";
  id = 0x1146016C;
  fields =
      field "__state__" "System.Byte"
      ∷ field "m_result" "System.Int32"
      ∷ field "m_questType" "System.Byte"
      ∷ field "m_questList" "System.Collections.Generic.List<Protocol.QuestData>"
      ∷ [];
}

abbrev pub s2c_quest_progress_list : Message
s2c_quest_progress_list = record {
  name = "S2C_QuestProgressList";
  dir = "S2C";
  id = 0x19542FEF;
  fields = field "m_questList" "System.Collections.Generic.List<Protocol.QuestData>" ∷ [];
}

abbrev pub s2c_quest_remove_list : Message
s2c_quest_remove_list = record {
  name = "S2C_QuestRemoveList";
  dir = "S2C";
  id = 0x12BB58A8;
  fields = field "m_questIndexList" "System.Collections.Generic.List<System.Int32>" ∷ [];
}

abbrev pub s2c_quest_update_list : Message
s2c_quest_update_list = record {
  name = "S2C_QuestUpdateList";
  dir = "S2C";
  id = 0x2819A08A;
  fields = field "m_questList" "System.Collections.Generic.List<Protocol.QuestData>" ∷ [];
}
