-- ===== src/Lib.antt =====
-- cloudigrade counts the Red Hat Enterprise Linux instances that run in its users' cloud accounts.
-- This library models the parts of it that turn power events into runs and runs into usage, and the
-- life of the cloud accounts and users that own them, and those that find instances and images in AWS and
-- record their events. An account that is disabled gets power_off events,
-- which the calculation of runs reads; runs are what usage counts; the deletion of an account takes the
-- events, runs and usage with it.
--
-- Models.antt holds the rows of cloudigrade/api/models.py and the database as a record of tables; its
-- child Images holds the properties of MachineImage. Orm.antt is the interface to what Django and
-- PostgreSQL do and the program only relies on: the order of a query, where rows that tie may come in
-- any order, and fresh primary keys. Orm/Insertion.antt is one database that meets it. Filters are
-- translated as Boolean tests from the source's keyword arguments and Q objects.
--
-- Runs models cloudigrade/api/util.py from `denormalize_runs` to `find_problematic_runs`: Runs/Scan.antt
-- is the loop over one instance's events, Runs/Sorting.antt the sort and the grouping,
-- Runs/Denormalize.antt the whole of `denormalize_runs`, Runs/Recalculate.antt `recalculate_runs` with the
-- work of `Run.save` and of the signal before a deletion, Runs/Recent.antt the functions that choose
-- where a recalculation begins, Runs/Problematic.antt the search for open runs and their repair in
-- cloudigrade/api/tasks/calculation.py. The other files of Runs are proofs.
--
-- Usage models `calculate_max_concurrent_usage`, `_record_results` and what they call (Usage/Tally.antt,
-- Usage/Calculate.antt), the dates that runs touch (Usage/Dates.antt), and the tasks of
-- cloudigrade/api/tasks/calculation.py that refresh usage (Usage/Refresh.antt). Definitions.antt models
-- `save_instance_type_definitions`.
--
-- Accounts models `CloudAccount.enable` and `disable` (Accounts/Account.antt) with the halves of AWS and
-- Azure and `verify_permissions` (Accounts/Clouds.antt), the deletion of inactive users
-- (Accounts/Users.antt) and of accounts (Accounts/Removal.antt) from
-- cloudigrade/api/tasks/maintenance.py. The object in memory and its row are two values; Accounts/World.antt
-- holds the tables with the callbacks that wait for the commit and the messages that were sent, and a
-- rollback restores the first two only. What AWS and Azure answer is a parameter.
--
-- Aws models the images of cloudigrade/api/clouds/aws: Aws/Tables.antt the AWS rows beside the tables of
-- all clouds, Aws/Images.antt `MachineImage.save` and how images are created, Aws/Inspections.antt
-- `start_image_inspection` and the updates of an image's status from cloudigrade/api/clouds/aws/util.py
-- with `launch_inspection_instance` from cloudigrade/api/clouds/aws/tasks/inspection.py. Aws/Attempts.antt
-- is a step relation over all of these. Aws/Instances.antt is `save_instance`, Aws/Events.antt
-- `save_instance_events`, whose two halves with and without events are two definitions, and
-- `create_initial_aws_instance_events`, Aws/Missing.antt `create_missing_power_off_aws_instance_events`.
-- Aws/Describe.antt is `initial_aws_describe_instances` from cloudigrade/api/clouds/aws/tasks/onboarding.py
-- with the functions that it calls, where the tables may change while AWS is asked. Runs reads the events
-- that these save.
--
-- Cloudtrail models cloudigrade/api/clouds/aws/cloudtrail.py and
-- cloudigrade/api/clouds/aws/tasks/cloudtrail.py: Cloudtrail/Records.antt the
-- records of a log and the events, Cloudtrail/Extract.antt their extraction, where an exception is `none`,
-- Cloudtrail/Tags.antt `_extract_ami_ids_by_tag_change` and the updates of images by it,
-- Cloudtrail/Loading.antt what AWS is asked for, Cloudtrail/Saving.antt `_save_cloudtrail_activity`, which
-- calls Aws/Images.antt, Aws/Instances.antt and Aws/Events.antt, and Cloudtrail/Process.antt
-- `_process_cloudtrail_message` and `analyze_log`. The parsing of dates and the answers of AWS are
-- parameters.
--
-- Sources.antt models the pause, the unpause and the deletion of cloudigrade/api/tasks/sources.py, which
-- call `disable` and `enable` of Accounts/Account.antt and `delete_cloud_accounts` of
-- Accounts/Removal.antt.
--
-- Queues.antt models `add_messages_to_queue` of cloudigrade/util/aws/sqs.py: the batches that it sends.
--
-- Times are microseconds since the epoch in UTC, dates are day numbers, and the current time is an
-- argument. Loops are structural recursions, except the loop over days in
-- `recalculate_concurrent_usage_for_user_id`, which has fuel for two days more than today's number:
-- it begins at day 0 or later and ends after today. Text is a list of code points.
-- Logging, locks, and the cloud providers' and other services' APIs are not modelled: what the program
-- only prints or delegates has no effect on the tables.
pub mod Prelude
pub mod Orm
pub mod Models
pub mod Runs
pub mod Usage
pub mod Definitions
pub mod Accounts
pub mod Aws
pub mod Cloudtrail
pub mod Sources
pub mod Queues
