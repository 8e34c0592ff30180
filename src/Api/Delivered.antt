-- ===== src/Api/Delivered.antt =====
-- services/api_service/main.py, common/cloudrm/rabbit.py and services/queue_agent/main.py: from a
-- submission over the broker to the queues.
use cloud_multi_agent_manage.Platform.{Platform}
use cloud_multi_agent_manage.Rabbit.Message.{Message}
