-- ===== src/Protocol/Messages.antt =====
-- internal/protocol/catalog_gen.go: the part of the catalog that the handlers, the scene, items,
-- skills, quests, parties and friends use.
pub mod Distinct
pub mod Login
pub mod Lobby
pub mod Enter
pub mod Scene
pub mod Inventory
pub mod Friends
pub mod PartyDungeon
pub mod Party
pub mod Skill
pub mod Quest
pub mod Crafting
pub mod Enchant
pub mod Storage
pub mod Layouts
pub mod Objects
pub mod Play
pub mod Items
use rom_server_poc.Prelude.{ℕ, List, [], ◌∷◌, String}
use rom_server_poc.Protocol.Catalog.{Catalog, Field, Message}
use Login.{
  c2s_version_check, s2c_version_check, c2s_session_auth_login, s2c_session_auth_login,
  s2c_check_connection, c2s_logout, s2c_logout,
}
use Lobby.{
  c2s_set_options, c2s_waiting_user_count, s2c_waiting_user_count, c2s_player_list, s2c_player_list,
  c2s_create_player, s2c_create_player,
}
use Enter.{
  c2s_enter_world, s2c_enter_world, s2c_enter_world_complete, c2s_map_enter, s2c_map_enter,
  c2s_map_enter_pre_complete, s2c_map_enter_pre_complete, c2s_map_enter_complete,
  s2c_map_enter_complete, c2s_player_load_first_call, s2c_player_load_first_call, s2c_move_notice,
}
use Scene.{
  c2s_move_notice, s2c_move_list_notice, c2s_object_appear_notice, s2c_object_appear_notice,
  s2c_object_disappear_notice, c2s_player_warp, s2c_player_warp, c2s_chat_msg, s2c_chat_msg,
  s2c_chat_msg_notify,
}
use Inventory.{
  s2c_equip_list, s2c_contents_setting, s2c_contents_setting_update_notify, s2c_item_list,
  c2s_skill_list, s2c_skill_list, c2s_restorable_item_list, s2c_restorable_item_list,
  c2s_warehouse_item_move, s2c_warehouse_item_move,
}
use Friends.{
  c2s_friend_delete, s2c_friend_delete, c2s_friend_request, s2c_friend_request,
  c2s_friend_request_cancel, s2c_friend_request_cancel, c2s_friend_request_reply,
  s2c_friend_request_reply,
}
use PartyDungeon.{
  c2s_party_dungeon_enter, s2c_party_dungeon_enter, s2c_party_dungeon_enter_noti,
  c2s_party_dungeon_entry_status, s2c_party_dungeon_entry_status,
  s2c_party_dungeon_player_count_noti, s2c_party_dungeon_tower_info_noti,
  c2s_party_loot_change_noti,
}
use Party.{
  c2s_party_accept_noti, s2c_party_accept_noti, c2s_party_cancel_noti, s2c_party_cancel_noti,
  c2s_party_exist, s2c_party_exist, s2c_party_exit_noti, c2s_party_expel_noti, s2c_party_info_noti,
  c2s_party_invite, s2c_party_invite, s2c_party_invite_noti, c2s_party_leave_noti,
  c2s_party_master_change_noti, s2c_party_member_get_item_notify, c2s_party_target_noti,
  s2c_party_target_noti,
}
use Skill.{
  s2c_buff_add_noti, s2c_buff_del_noti, c2s_buff_list, s2c_buff_list, c2s_skill_casting,
  s2c_skill_casting, s2c_skill_casting_noti, s2c_skill_get_noti, c2s_skill_level_up,
  s2c_skill_level_up, c2s_skill_use, s2c_skill_use, s2c_skill_use_notice,
}
use Quest.{
  c2s_quest_action, s2c_quest_action, s2c_quest_add_list, c2s_quest_complete_immediately,
  s2c_quest_complete_immediately, c2s_quest_list, s2c_quest_list, s2c_quest_progress_list,
  s2c_quest_remove_list, s2c_quest_update_list,
}
use Crafting.{
  c2s_item_compose, s2c_item_compose, c2s_item_compose_board_info, s2c_item_compose_board_info,
  c2s_item_dissolve, s2c_item_dissolve, c2s_item_make, s2c_item_make, c2s_item_make_limit_list,
  s2c_item_make_limit_list, c2s_item_make_limit_list_refresh, s2c_item_make_limit_list_refresh,
}
use Enchant.{
  c2s_item_awakening, s2c_item_awakening, c2s_item_enchant, s2c_item_enchant,
  s2c_item_enchant_broken_give_notify, c2s_item_eryndor_enchant, s2c_item_eryndor_enchant,
  c2s_item_eryndor_imprinting, s2c_item_eryndor_imprinting, c2s_item_eryndor_imprinting_list,
  s2c_item_eryndor_imprinting_list, c2s_item_eryndor_imprinting_reset,
  s2c_item_eryndor_imprinting_reset, c2s_item_eryndor_promotion, s2c_item_eryndor_promotion,
  c2s_item_eryndor_regrant, s2c_item_eryndor_regrant,
}
use Storage.{
  c2s_equip_item, s2c_equip_item, s2c_item_collection_end_noti, c2s_item_collection_list,
  s2c_item_collection_list, s2c_item_collection_seaon_list_noti, s2c_item_manipulate_notify,
  c2s_item_pickup, s2c_item_pickup, c2s_warehouse_item_sorting, s2c_warehouse_item_sorting,
  c2s_warehouse_slot_expansion, s2c_warehouse_slot_expansion,
}
use Layouts.{
  user_block_info_layout, lobby_player_info_layout, my_player_info_layout, vector_layout,
  stat_info_layout, s2c_move_notice_layout,
}
use Objects.{
  player_data_layout, network_obj_data_layout, equip_item_data_layout, pet_info_layout,
  item_data_layout, item_options_layout, skill_data_layout, sub_skill_point_data_layout,
  warehouse_item_move_layout,
}
use Play.{
  friend_request_info_layout, relation_player_info_layout, party_dungeon_member_info_layout,
  party_info_layout, party_member_data_layout, party_buff_data_layout, buff_data_layout,
  skill_effect_value_layout, reward_data_layout, quest_data_layout,
}
use Items.{
  dissolve_data_layout, dissolve_reward_data_layout, item_make_result_info_layout,
  item_make_limit_info_layout, item_enchant_request_layout, item_enchant_result_layout,
  item_broken_give_data_layout, eryndor_imprinting_info_layout, end_time_info_layout,
  item_collection_slots_layout, item_collection_slot_reg_qty_layout,
}

abbrev pub server_catalog : Catalog
server_catalog = record {
  messages =
      c2s_version_check ∷ s2c_version_check ∷ c2s_session_auth_login ∷ s2c_session_auth_login
      ∷ s2c_check_connection ∷ c2s_logout ∷ s2c_logout ∷ c2s_set_options ∷ c2s_waiting_user_count
      ∷ s2c_waiting_user_count ∷ c2s_player_list ∷ s2c_player_list ∷ c2s_create_player
      ∷ s2c_create_player ∷ c2s_enter_world ∷ s2c_enter_world ∷ s2c_enter_world_complete
      ∷ c2s_map_enter ∷ s2c_map_enter ∷ c2s_map_enter_pre_complete ∷ s2c_map_enter_pre_complete
      ∷ c2s_map_enter_complete ∷ s2c_map_enter_complete ∷ c2s_player_load_first_call
      ∷ s2c_player_load_first_call ∷ s2c_move_notice ∷ c2s_move_notice ∷ s2c_move_list_notice
      ∷ c2s_object_appear_notice ∷ s2c_object_appear_notice ∷ s2c_object_disappear_notice
      ∷ c2s_player_warp ∷ s2c_player_warp ∷ c2s_chat_msg ∷ s2c_chat_msg ∷ s2c_chat_msg_notify
      ∷ s2c_equip_list ∷ s2c_contents_setting ∷ s2c_contents_setting_update_notify ∷ s2c_item_list
      ∷ c2s_skill_list ∷ s2c_skill_list ∷ c2s_restorable_item_list ∷ s2c_restorable_item_list
      ∷ c2s_warehouse_item_move ∷ s2c_warehouse_item_move ∷ c2s_friend_delete ∷ s2c_friend_delete
      ∷ c2s_friend_request ∷ s2c_friend_request ∷ c2s_friend_request_cancel
      ∷ s2c_friend_request_cancel ∷ c2s_friend_request_reply ∷ s2c_friend_request_reply
      ∷ c2s_party_dungeon_enter ∷ s2c_party_dungeon_enter ∷ s2c_party_dungeon_enter_noti
      ∷ c2s_party_dungeon_entry_status ∷ s2c_party_dungeon_entry_status
      ∷ s2c_party_dungeon_player_count_noti ∷ s2c_party_dungeon_tower_info_noti
      ∷ c2s_party_loot_change_noti ∷ c2s_party_accept_noti ∷ s2c_party_accept_noti
      ∷ c2s_party_cancel_noti ∷ s2c_party_cancel_noti ∷ c2s_party_exist ∷ s2c_party_exist
      ∷ s2c_party_exit_noti ∷ c2s_party_expel_noti ∷ s2c_party_info_noti ∷ c2s_party_invite
      ∷ s2c_party_invite ∷ s2c_party_invite_noti ∷ c2s_party_leave_noti
      ∷ c2s_party_master_change_noti ∷ s2c_party_member_get_item_notify ∷ c2s_party_target_noti
      ∷ s2c_party_target_noti ∷ s2c_buff_add_noti ∷ s2c_buff_del_noti ∷ c2s_buff_list
      ∷ s2c_buff_list ∷ c2s_skill_casting ∷ s2c_skill_casting ∷ s2c_skill_casting_noti
      ∷ s2c_skill_get_noti ∷ c2s_skill_level_up ∷ s2c_skill_level_up ∷ c2s_skill_use ∷ s2c_skill_use
      ∷ s2c_skill_use_notice ∷ c2s_quest_action ∷ s2c_quest_action ∷ s2c_quest_add_list
      ∷ c2s_quest_complete_immediately ∷ s2c_quest_complete_immediately ∷ c2s_quest_list
      ∷ s2c_quest_list ∷ s2c_quest_progress_list ∷ s2c_quest_remove_list ∷ s2c_quest_update_list
      ∷ c2s_item_compose ∷ s2c_item_compose ∷ c2s_item_compose_board_info
      ∷ s2c_item_compose_board_info ∷ c2s_item_dissolve ∷ s2c_item_dissolve ∷ c2s_item_make
      ∷ s2c_item_make ∷ c2s_item_make_limit_list ∷ s2c_item_make_limit_list
      ∷ c2s_item_make_limit_list_refresh ∷ s2c_item_make_limit_list_refresh ∷ c2s_item_awakening
      ∷ s2c_item_awakening ∷ c2s_item_enchant ∷ s2c_item_enchant
      ∷ s2c_item_enchant_broken_give_notify ∷ c2s_item_eryndor_enchant ∷ s2c_item_eryndor_enchant
      ∷ c2s_item_eryndor_imprinting ∷ s2c_item_eryndor_imprinting ∷ c2s_item_eryndor_imprinting_list
      ∷ s2c_item_eryndor_imprinting_list ∷ c2s_item_eryndor_imprinting_reset
      ∷ s2c_item_eryndor_imprinting_reset ∷ c2s_item_eryndor_promotion ∷ s2c_item_eryndor_promotion
      ∷ c2s_item_eryndor_regrant ∷ s2c_item_eryndor_regrant ∷ c2s_equip_item ∷ s2c_equip_item
      ∷ s2c_item_collection_end_noti ∷ c2s_item_collection_list ∷ s2c_item_collection_list
      ∷ s2c_item_collection_seaon_list_noti ∷ s2c_item_manipulate_notify ∷ c2s_item_pickup
      ∷ s2c_item_pickup ∷ c2s_warehouse_item_sorting ∷ s2c_warehouse_item_sorting
      ∷ c2s_warehouse_slot_expansion ∷ s2c_warehouse_slot_expansion ∷ [];
  structs =
      ("Protocol.UserBlockInfo", user_block_info_layout)
      ∷ ("Protocol.LobbyPlayerInfo", lobby_player_info_layout)
      ∷ ("Protocol.MyPlayerInfo", my_player_info_layout)
      ∷ ("Protocol.Vector", vector_layout)
      ∷ ("Protocol.StatInfo", stat_info_layout)
      ∷ ("Protocol.S2C_MoveNotice", s2c_move_notice_layout)
      ∷ ("Protocol.PlayerData", player_data_layout)
      ∷ ("Protocol.NetworkObjData", network_obj_data_layout)
      ∷ ("Protocol.EquipItemData", equip_item_data_layout)
      ∷ ("Protocol.PetInfo", pet_info_layout)
      ∷ ("Protocol.ItemData", item_data_layout)
      ∷ ("Protocol.ItemOptions", item_options_layout)
      ∷ ("Protocol.SkillData", skill_data_layout)
      ∷ ("Protocol.SubSkillPointData", sub_skill_point_data_layout)
      ∷ ("Protocol.WarehouseItemMove", warehouse_item_move_layout)
      ∷ ("Protocol.FriendRequestInfo", friend_request_info_layout)
      ∷ ("Protocol.RelationPlayerInfo", relation_player_info_layout)
      ∷ ("Protocol.PartyDungeonMemberInfo", party_dungeon_member_info_layout)
      ∷ ("Protocol.PartyInfo", party_info_layout)
      ∷ ("Protocol.PartyMemberData", party_member_data_layout)
      ∷ ("Protocol.PartyBuffData", party_buff_data_layout)
      ∷ ("Protocol.BuffData", buff_data_layout)
      ∷ ("Protocol.SkillEffectValue", skill_effect_value_layout)
      ∷ ("Protocol.RewardData", reward_data_layout)
      ∷ ("Protocol.QuestData", quest_data_layout)
      ∷ ("Protocol.DissolveData", dissolve_data_layout)
      ∷ ("Protocol.DissolveRewardData", dissolve_reward_data_layout)
      ∷ ("Protocol.ItemMakeResultInfo", item_make_result_info_layout)
      ∷ ("Protocol.ItemMakeLimitInfo", item_make_limit_info_layout)
      ∷ ("Protocol.ItemEnchantRequest", item_enchant_request_layout)
      ∷ ("Protocol.ItemEnchantResult", item_enchant_result_layout)
      ∷ ("Protocol.ItemBrokenGiveData", item_broken_give_data_layout)
      ∷ ("Protocol.EryndorImprintingInfo", eryndor_imprinting_info_layout)
      ∷ ("Protocol.EndTimeInfo", end_time_info_layout)
      ∷ ("Protocol.ItemCollectionSlots", item_collection_slots_layout)
      ∷ ("Protocol.ItemCollectionSlotRegQty", item_collection_slot_reg_qty_layout)
      ∷ [];
  fixed_arrays =
      ("Protocol.AbilityValue|m_data", 249)
      ∷ ("Protocol.ItemOptions|m_optionIndex", 10)
      ∷ ("Protocol.S2C_ContentsSetting|m_levelLimits", 10)
      ∷ ("Protocol.S2C_ContentsSetting|m_values", 3)
      ∷ ("Protocol.S2C_EquipList|m_equipCostume", 2)
      ∷ ("Protocol.S2C_EquipList|m_equipItemList", 2)
      ∷ ("Protocol.S2C_EquipList|m_equipPet", 2)
      ∷ ("Protocol.S2C_EquipList|m_monolithEquipItemList", 2)
      ∷ ("Protocol.S2C_EquipList|m_usePresetSlot", 2)
      ∷ [];
  message_full_names = "Protocol.S2C_MoveNotice" ∷ [];
}
