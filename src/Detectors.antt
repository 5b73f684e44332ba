-- ===== src/Detectors.antt =====
-- The detectors of reply deadlines (src/proactive_mcp/situations/reply_deadline.py and
-- _deadline_text.py) and of occasions (personal_occasion.py). A date is the number of its day, as in
-- `Timezone`, where only its order and distance count.
pub mod DeadlineText
pub mod ReplyDeadline
pub mod PersonalOccasion
pub mod OccasionGroups
